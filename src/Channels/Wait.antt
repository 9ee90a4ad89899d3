-- ===== src/Channels/Wait.antt =====
-- `wait_for_events` of senseicore/src/channels.rs.
use sensei.Prelude.{
  ℕ, zero, suc, ◌+◌, ◌%◌, ◌^◌, Bool, true, false, Option, none, some, List, [], ◌∷◌, ◌++◌, ltb,
  is_empty, if◌then◌else◌,
}
use mathlib.Core.Option

-- The filters that wait for their event, and the events that were taken.
pub record Waiting (F E : Type 0) : Type 0 where
  pub filters : List F
  pub events : List E

-- The last element, and those before it.
unfoldable pub split_last : {F : Type 0} → F → List F → List F × F
split_last f [] = ([], f)
split_last f (g ∷ fs) = let (front, last) = split_last g fs in (f ∷ front, last)

-- `Vec::swap_remove`: the last element takes the place of the one at `index`.
unfoldable pub swap_remove : {F : Type 0} → ℕ → List F → List F
swap_remove index [] = []
swap_remove zero (f ∷ []) = []
swap_remove zero (f ∷ g ∷ fs) = let (front, last) = split_last g fs in last ∷ front
swap_remove (suc index) (f ∷ fs) = f ∷ swap_remove index fs

module _ {F E : Type 0} (passes : F → E → Bool) where
  unfoldable pub filter_index : List F → E → Option ℕ
  filter_index [] event = none
  filter_index (f ∷ filters) event =
      let rest = filter_index filters event in
      if passes f event then some 0 else Option.map (λ i. suc i) rest

  unfoldable pub take_event : E → Waiting F E → Waiting F E
  take_event event w = elim (filter_index w.filters event) [
    | some index ↦ record { filters = swap_remove index w.filters; events = w.events ++ event ∷ [] }
    | none ↦ w
  ]

  -- The events that `try_recv` gives before it fails, and whether the function returned on one of them.
  unfoldable pub drain : List E → Waiting F E → Bool × Waiting F E
  drain [] w = (false, w)
  drain (event ∷ rest) w =
      let w' = take_event event w in
      let later = drain rest w' in if is_empty w'.filters then (true, w') else later

  -- `polls` are the events of each round. The clock is a `u64`, in a release build. `none` stands for a
  -- wait that is not over after so many rounds.
  unfoldable pub wait_for_events :
      (fuel : ℕ) (current_ms timeout_ms interval_ms : ℕ) (polls : ℕ → List E) (round : ℕ)
      → Waiting F E
      → Option (List E)
  wait_for_events zero current_ms timeout_ms interval_ms polls round w = none
  wait_for_events (suc fuel) current_ms timeout_ms interval_ms polls round w =
      let (returned, w') = drain (polls round) w in
      let on =
        wait_for_events fuel ((current_ms + interval_ms) % 2 ^ 64) timeout_ms interval_ms polls
          (suc round) w' in
      if ltb current_ms timeout_ms then if returned then some w'.events else on else some w.events
