-- ===== src/Channels/Rounds.antt =====
-- The wait for events: its rounds are as one, it ends, and what it returns answers the filters.
use sensei.Prelude.{
  ℕ, zero, suc, ◌+◌, ◌*◌, ◌%◌, ◌^◌, ◌<◌, ◌≡◌, refl, sym, ap, subst, ◌∙◌, Bool, true, some, List, [],
  ◌∷◌, ◌++◌, append_assoc, append-nil, ltb, is_empty, if◌then◌else◌, arith, Bool-cases,
  Option-cases, inl, inr,
}
use mathlib.Core.List.{Perm}
use mathlib.Core.List.Perm
use sensei.Channels.Wait.{
  Waiting, split_last, swap_remove, filter_index, take_event, drain, wait_for_events,
}

-- The events of some rounds, one after the other.
abbrev pub arrived : {E : Type 0} → (ℕ → List E) → ℕ → ℕ → List E
arrived polls round zero = []
arrived polls round (suc n) = polls round ++ arrived polls (suc round) n

module _ {F E : Type 0} (passes : F → E → Bool) where
  drain-append :
      (xs ys : List E) (w : Waiting F E)
      → drain passes (xs ++ ys) w ≡ (
          if (drain passes xs w).0
          then drain passes xs w
          else drain passes ys (drain passes xs w).1)
  unfolding drain
  drain-append [] ys w = refl
  drain-append (x ∷ xs) ys w = ground (arith, drain-append xs ys (take_event passes x w))

  -- For a timeout of `n` intervals, where the clock does not wrap around: the wait ends after `n`
  -- rounds, with what one pass over all the events of these rounds takes.
  wait_for_events-rounds :
      (n fuel current interval timeout round : ℕ) (polls : ℕ → List E) (w : Waiting F E)
      → n < fuel
      → 0 < interval
      → current + n * interval ≡ timeout
      → timeout + interval < 2 ^ 64
      → wait_for_events passes fuel current timeout interval polls round w
        ≡ some (drain passes (arrived polls round n) w).1.events
  unfolding wait_for_events drain
  wait_for_events-rounds n zero current interval timeout round polls w more pos e small =
      absurd (omega arith)
  wait_for_events-rounds zero (suc fuel) current interval timeout round polls w more pos e small =
      let over : current ≡ timeout = omega arith in ground (arith, over)
  wait_for_events-rounds (suc n) (suc fuel) current interval timeout round polls w more pos e
        small =
      let on : (current + interval) % 2 ^ 64 ≡ current + interval = omega arith in
      let early : ltb current timeout ≡ true = ground arith in
      let later =
        wait_for_events-rounds n fuel (current + interval) interval timeout (suc round) polls
          (drain passes (polls round) w).1 (omega arith) pos (omega arith) small in
      let joined = drain-append (polls round) (arrived polls (suc round) n) w in
      elim (Bool-cases (drain passes (polls round) w).0) [
        | inl returned ↦ ground (arith, early, returned, joined)
        | inr waits ↦ ground (arith, early, on, waits, joined, later)
      ]

  -- Each event passes a filter of its own.
  pub data Answered : List F → List E → Type 0 where
    silent : (fs : List F) → Answered fs []
    answered :
        (fs rest : List F) (es : List E) (f : F) (e : E)
        → passes f e ≡ true
        → Perm fs (f ∷ rest)
        → Answered rest es
        → Answered fs (e ∷ es)

  split_last-Perm :
      (f : F) (fs : List F) → Perm (f ∷ fs) ((split_last f fs).1 ∷ (split_last f fs).0)
  unfolding split_last
  split_last-Perm f [] = Perm.refl (f ∷ [])
  split_last-Perm f (g ∷ fs) =
      Perm.trans (Perm.cons f (split_last-Perm g fs))
        (Perm.swap (split_last g fs).1 f (split_last g fs).0)

  filter_index-swap_remove :
      (fs : List F) (e : E) (i : ℕ)
      → filter_index passes fs e ≡ some i
      → (f : F) × (passes f e ≡ true) × Perm fs (f ∷ swap_remove i fs)
  unfolding filter_index swap_remove
  filter_index-swap_remove [] e i found = absurd (ground arith)
  filter_index-swap_remove (f ∷ fs) e i found = elim (Bool-cases (passes f e)) [
    | inl hit ↦ first f fs i hit (ground arith)
    | inr miss ↦ elim (Option-cases (filter_index passes fs e)) [
      | inl gone ↦ absurd (ground arith)
      | inr (j, there) ↦
          let (g, hit, perm) = filter_index-swap_remove fs e j there in
          let index : i ≡ suc j = ground arith in
          rw index (g, hit, Perm.trans (Perm.cons f perm) (Perm.swap g f (swap_remove j fs)))
    ]
  ]
    where
      first :
          (f : F) (fs : List F) (i : ℕ)
          → passes f e ≡ true
          → i ≡ 0
          → (g : F) × (passes g e ≡ true) × Perm (f ∷ fs) (g ∷ swap_remove i (f ∷ fs))
      first f [] i hit zeroth = rw zeroth (f, hit, Perm.refl (f ∷ []))
      first f (g ∷ fs) i hit zeroth = rw zeroth (f, hit, Perm.cons f (split_last-Perm g fs))

  -- What a list of events adds to those that were taken.
  abbrev Adds : List E → Waiting F E → Waiting F E → Type 0
  Adds es w w' = (w'.events ≡ w.events ++ es) × Answered w.filters es

  after_take :
      (x : E) (w : Waiting F E) (es : List E) (last : Waiting F E)
      → Adds es (take_event passes x w) last
      → (es' : List E) × Adds es' w last
  unfolding take_event
  after_take x w es last (same, ans) = elim (Option-cases (filter_index passes w.filters x)) [
    | inl miss ↦
        let kept : take_event passes x w ≡ w = ground (arith, miss) in
        (es, subst (λ v. Adds es v last) kept (same, ans))
    | inr (i, found) ↦
        let (f, hit, perm) = filter_index-swap_remove w.filters x i found in
        let v : Waiting F E = record {
          filters = swap_remove i w.filters;
          events = w.events ++ x ∷ [];
        } in
        let taken : take_event passes x w ≡ v = ground (arith, found) in
        let (same', ans') = subst (λ u. Adds es u last) taken (same, ans) in
        (
          x ∷ es,
          (
            same' ∙ append_assoc w.events (x ∷ []) es,
            answered w.filters (swap_remove i w.filters) es f x hit perm ans',
          ),
        )
  ]

  drain-Answered : (xs : List E) (w : Waiting F E) → (es : List E) × Adds es w (drain passes xs w).1
  unfolding drain
  drain-Answered [] w = ([], (sym (append-nil w.events), silent w.filters))
  drain-Answered (x ∷ xs) w =
      let w' = take_event passes x w in
      let (es, more) = drain-Answered xs w' in
      elim (Bool-cases (is_empty w'.filters)) [
        | inl done ↦
            let stops : (drain passes (x ∷ xs) w).1 ≡ w' = ground (arith, done) in
            rw stops (after_take x w [] w' (sym (append-nil w'.events), silent w'.filters))
        | inr left ↦
            let goes : (drain passes (x ∷ xs) w).1 ≡ (drain passes xs w').1 =
              ground (arith, left) in
            rw goes (after_take x w es (drain passes xs w').1 more)
      ]

  -- For a timeout of `n` intervals that are not 0, where the clock does not wrap around: the wait ends
  -- after at most `n` rounds, it returns what one pass over the events of these rounds takes, and each
  -- event that it returns passes a filter of its own.
  pub wait_for_events-answers :
      (n fuel interval timeout : ℕ) (polls : ℕ → List E) (fs : List F)
      → n < fuel
      → 0 < interval
      → n * interval ≡ timeout
      → timeout + interval < 2 ^ 64
      → (es : List E) × (wait_for_events passes fuel 0 timeout interval polls 0
            (record { filters = fs; events = [] })
          ≡ some es)
        × (es ≡ (drain passes (arrived polls 0 n) (record { filters = fs; events = [] })).1.events)
        × Answered fs es
  wait_for_events-answers n fuel interval timeout polls fs more pos e small =
      let w : Waiting F E = record { filters = fs; events = [] } in
      let ends =
        wait_for_events-rounds n fuel 0 interval timeout 0 polls w more pos (omega (arith, e))
          small in
      let (es, (same, ans)) = drain-Answered (arrived polls 0 n) w in
      (es, ends ∙ ap some same, sym same, ans)
