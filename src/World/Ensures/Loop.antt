-- ===== src/World/Ensures/Loop.antt =====
-- The rule for a loop: an invariant of what is left of the list, of the loop's variables and of the
-- state.
use container_object_storage.Prelude.{List, [], ◌∷◌}
use container_object_storage.Errors.{Error}
use container_object_storage.World.Action.{State, Action, range}
use container_object_storage.World.Ensures.{Ensures, Ensures-bind, Ensures-pure}

module _ {O X S : Type 0} {E : Error → State O → Type 0} where
  pub Ensures-range :
      (I : List X → S → State O → Type 0) (body : X → S → Action O S)
      → ((x : X) (xs : List X) (v : S) → Ensures (I (x ∷ xs) v) (body x v) (I xs) E)
      → (xs : List X) (v : S) → Ensures (I xs v) (range body xs v) (I []) E
  unfolding range
  Ensures-range I body keeps [] v = Ensures-pure v (λ s h. h)
  Ensures-range I body keeps (x ∷ xs) v =
      Ensures-bind (I xs) (keeps x xs v) (λ w. Ensures-range I body keeps xs w)
