-- ===== src/World/Ensures/Invariant.antt =====
-- Actions that keep an invariant of the state, whether they succeed or fail; with one rule for each way
-- to build an action.
use container_object_storage.Prelude.{◌≡◌, Bool, Option, none, List, [], ◌∷◌}
use container_object_storage.Errors.{Error, Result, ok, err}
use container_object_storage.World.{Call, History}
use container_object_storage.World.Action.{
  State, Action, ◌>>=◌, ◌>>◌, pure, fail, lift, try, call, on_error, branch, object, modify, check,
  when, range,
}
use container_object_storage.World.Ensures.Steps.{Ensures-lifted, Ensures-checked}
use container_object_storage.World.Ensures.{
  Ensures, Ensures-bind, Ensures-pure, Ensures-fail, Ensures-lift, Ensures-try, Ensures-on_error,
  Ensures-branch, Ensures-call, Ensures-object, Ensures-modify, Ensures-check, Ensures-when,
  Ensures-loosen,
}

pub record Preserves {O A : Type 0} (J : State O → Type 0) (m : Action O A) : Type 0 where
  pub holds : Ensures J m (λ _. J) (λ _. J)

module _ {O : Type 0} {J : State O → Type 0} where
  module _ {A B : Type 0} where
    pub Preserves-bind :
        {m : Action O A} {f : A → Action O B}
        → Preserves J m
        → ((a : A) → Preserves J (f a))
        → Preserves J (m >>= f)
    Preserves-bind km kf = record { holds = Ensures-bind (λ _. J) km.holds (λ a. (kf a).holds) }

    -- A computation that failed with a wrapped error is not gone on from.
    pub Preserves-lifted :
        (g : Error → Error) (r : Result A) {f : A → Action O B}
        → ((a : A) → r ≡ ok a → Preserves J (f a))
        → Preserves J (on_error g (lift r) >>= f)
    Preserves-lifted g r k = record { holds = Ensures-lifted g r (λ s h. h) (λ a e. (k a e).holds) }

  module _ {A : Type 0} where
    -- Nor is a check that failed.
    pub Preserves-checked :
        (e : Option Error) {m : Action O A}
        → (e ≡ none → Preserves J m)
        → Preserves J (check e >> m)
    Preserves-checked e k = record { holds = Ensures-checked e (λ s h. h) (λ p. (k p).holds) }

    pub Preserves-pure : (a : A) → Preserves J (pure a)
    Preserves-pure a = record { holds = Ensures-pure a (λ s h. h) }

    pub Preserves-fail : (e : Error) → Preserves J (fail {A = A} e)
    Preserves-fail e = record { holds = Ensures-fail e (λ s h. h) }

    pub Preserves-lift : (r : Result A) → Preserves J (lift r)
    Preserves-lift r = record { holds = Ensures-lift r (λ a e s h. h) (λ x e s h. h) }

    pub Preserves-try : {m : Action O A} → Preserves J m → Preserves J (try m)
    Preserves-try {m} km = record { holds = Ensures-try m km.holds }

    pub Preserves-on_error :
        (f : Error → Error) {m : Action O A} → Preserves J m → Preserves J (on_error f m)
    Preserves-on_error f km = record { holds = Ensures-on_error (λ _. J) f km.holds (λ e s h. h) }

    pub Preserves-branch :
        (b : Bool) {m n : Action O A} → Preserves J m → Preserves J n → Preserves J (branch b m n)
    Preserves-branch b km kn = record { holds = Ensures-branch b (λ e. km.holds) (λ e. kn.holds) }

    -- The record of the call keeps the invariant, whatever the answer is.
    pub Preserves-call :
        (log : Result A → Call) (answer : History → Result A)
        → ((r : Result A) (s : State O) → J s → J (record s { history = log r ∷ s.history }))
        → Preserves J (call log answer)
    Preserves-call log answer k = record {
      holds = Ensures-call log answer (λ a s h e. k (ok a) s h) (λ x s h e. k (err x) s h);
    }

  pub Preserves-object : Preserves J (object {O = O})
  Preserves-object = record { holds = Ensures-loosen Ensures-object (λ o s h. h.0) }

  pub Preserves-modify :
      (f : O → O)
      → ((s : State O) → J s → J (record s { object = f s.object }))
      → Preserves J (modify f)
  Preserves-modify f k = record { holds = Ensures-modify f k }

  pub Preserves-check : (e : Option Error) → Preserves J (check e)
  Preserves-check e = record { holds = Ensures-check e (λ p s h. h) (λ x p s h. h) }

  pub Preserves-when : (b : Bool) {m : Action O (Unit {0})} → Preserves J m → Preserves J (when b m)
  Preserves-when b km = record { holds = Ensures-when b (λ e. km.holds) (λ e s h. h) }

  module _ {X S : Type 0} where
    pub Preserves-range :
        (body : X → S → Action O S)
        → ((x : X) (v : S) → Preserves J (body x v))
        → (xs : List X) (v : S) → Preserves J (range body xs v)
    unfolding range
    Preserves-range body k [] v = Preserves-pure v
    Preserves-range body k (x ∷ xs) v = Preserves-bind (k x v) (λ w. Preserves-range body k xs w)

pub ruleset preserves = (
  Preserves-bind, Preserves-pure, Preserves-fail, Preserves-lift, Preserves-try, Preserves-on_error,
  Preserves-branch, Preserves-object, Preserves-check, Preserves-when, Preserves-range,
)
