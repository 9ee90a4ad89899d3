-- ===== src/Auth/Scopes.antt =====
-- Which scopes a token grants: the parts of its scope column.
use sensei.Prelude.{
  ◌≡◌, refl, sym, ap, ◌∙◌, Bool, false, ◌||◌, some, List, [], ◌∷◌, ◌++◌, Text, ◌=text◌, ◌==◌, All,
  any, arith, append_assoc, append-nil,
}
use sensei.Text.{codes}
use sensei.Auth.{AccessToken, split, has_access_to_scope}

-- The parts with commas between them.
unfoldable pub join : List Text → Text
join [] = []
join (p ∷ []) = p
join (p ∷ q ∷ rest) = let later = join (q ∷ rest) in p ++ 44 ∷ later

abbrev pub HasNoComma : Text → Type 0
HasNoComma s = All (λ c. (c == 44) ≡ false) s

split_part : (part s rest : Text) → HasNoComma s → split part (s ++ rest) ≡ split (part ++ s) rest
unfolding split
split_part part [] rest h = ap (λ p. split p rest) (sym (append-nil part))
split_part part (c ∷ s) rest h =
    let on = split_part (part ++ c ∷ []) s rest h.1 in
    ground (arith, h.0, on, append_assoc part (c ∷ []) s)

split-join :
    (p : Text) (parts : List Text)
    → All HasNoComma (p ∷ parts)
    → split [] (join (p ∷ parts)) ≡ p ∷ parts
unfolding split join
split-join p [] h = ground (arith, split_part [] p [] h.0, append-nil p)
split-join p (q ∷ rest) h =
    ground (arith, split_part [] p (44 ∷ join (q ∷ rest)) h.0, split-join q rest h.1)

any-or : (p q : Text → Bool) (xs : List Text) → (any p xs || any q xs) ≡ any (λ x. p x || q x) xs
any-or p q [] = refl
any-or p q (x ∷ xs) = ground (arith, any-or p q xs)

-- For a token whose scope column lists some scopes, none of which contains a comma: it grants a scope
-- exactly when one of them is that scope or the asterisk.
pub has_access_to_scope-join :
    (t : AccessToken) (p : Text) (parts : List Text) (scope : Text)
    → All HasNoComma (p ∷ parts)
    → t.scope ≡ join (p ∷ parts)
    → has_access_to_scope t (some scope)
      ≡ any (λ s. (s =text codes "*") || (s =text scope)) (p ∷ parts)
unfolding has_access_to_scope
has_access_to_scope-join t p parts scope h e =
    let granted : split [] t.scope ≡ p ∷ parts = ap (split []) e ∙ split-join p parts h in
    ap (λ (xs : List Text). any (λ s. s =text codes "*") xs || any (λ s. s =text scope) xs) granted
    ∙ any-or (λ s. s =text codes "*") (λ s. s =text scope) (p ∷ parts)
