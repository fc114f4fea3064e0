-- ===== src/World/Ensures/Steps.antt =====
-- The rules for a step that stops the action where a computation failed: what is known of its success is
-- a hypothesis of the rest.
use container_object_storage.Prelude.{◌≡◌, Option, none}
use container_object_storage.Errors.{Error, Result, ok}
use container_object_storage.World.Action.{State, Action, ◌>>=◌, ◌>>◌, lift, on_error, check}
use container_object_storage.World.Ensures.{
  Ensures, Ensures-bind, Ensures-lift, Ensures-on_error, Ensures-check, Ensures-given,
}

-- The failure keeps `F`, whatever the error is.
module _ {O A B : Type 0} {P : State O → Type 0} {R : B → State O → Type 0}
    {F : State O → Type 0} where
  pub Ensures-lifted :
      (g : Error → Error) (r : Result A) {f : A → Action O B}
      → ((s : State O) → P s → F s)
      → ((a : A) → r ≡ ok a → Ensures P (f a) R (λ _. F))
      → Ensures P (on_error g (lift r) >>= f) R (λ _. F)
  Ensures-lifted g r fails k =
      Ensures-bind (λ a s. (r ≡ ok a) × P s)
        (Ensures-on_error (λ _. F) g (Ensures-lift r (λ a e s h. (e, h)) (λ x e s h. fails s h))
          (λ x s h. h))
        λ a. Ensures-given λ e. k a e

module _ {O B : Type 0} {P : State O → Type 0} {R : B → State O → Type 0}
    {F : State O → Type 0} where
  pub Ensures-checked :
      (e : Option Error) {m : Action O B}
      → ((s : State O) → P s → F s)
      → (e ≡ none → Ensures P m R (λ _. F))
      → Ensures P (check e >> m) R (λ _. F)
  Ensures-checked e fails k =
      Ensures-bind (λ _ s. (e ≡ none) × P s)
        (Ensures-check e (λ p s h. (p, h)) (λ x p s h. fails s h)) λ _. Ensures-given k
