-- ===== src/World/Ensures.antt =====
-- Postconditions of actions: what holds after success and what holds after failure, with one rule
-- for each way to build an action.
pub mod Loop
pub mod Invariant
pub mod Steps
use container_object_storage.Prelude.{◌≡◌, subst, refl, Bool, true, false, Option, none, some, ◌∷◌}
use container_object_storage.Errors.{Error, Result, ok, err}
use container_object_storage.World.{Call, History}
use container_object_storage.World.Action.{
  State, Action, continue, ◌>>=◌, pure, fail, lift, try, call, on_error, branch, map_error, object,
  modify, set_object, check, when,
}

abbrev pub Post :
    {O A : Type 0}
    → (A → State O → Type 0)
    → (Error → State O → Type 0)
    → Result A
    → State O
    → Type 0
Post Q E (ok a) s = Q a s
Post Q E (err e) s = E e s

pub record Ensures {O A : Type 0} (P : State O → Type 0) (m : Action O A) (Q : A → State O → Type 0)
    (E : Error → State O → Type 0) : Type 0 where
  pub at : (s : State O) → P s → Post Q E (m s).0 (m s).1

module _ {O A B : Type 0} (Q : A → State O → Type 0) (R : B → State O → Type 0)
    (E : Error → State O → Type 0) where
  continue-Post :
      (f : A → Action O B)
      → ((a : A) → Ensures (Q a) (f a) R E)
      → (r : Result A) (s : State O) → Post Q E r s
      → Post R E (continue r f s).0 (continue r f s).1
  continue-Post f kf (ok a) s h = (kf a).at s h
  continue-Post f kf (err e) s h = h

module _ {O A : Type 0} where
  post_try :
      (R : Result A → State O → Type 0) (r : Result A) (s : State O)
      → Post (λ a. R (ok a)) (λ e. R (err e)) r s
      → R r s
  post_try R (ok a) s h = h
  post_try R (err e) s h = h

  -- The code goes on with the error.
  pub Ensures-try :
      {P : State O → Type 0} {R : Result A → State O → Type 0} {F : Error → State O → Type 0}
      (m : Action O A)
      → Ensures P m (λ a. R (ok a)) (λ e. R (err e))
      → Ensures P (try m) R F
  unfolding ◌>>=◌
  Ensures-try {R} m km = record { at = λ s h. post_try R (m s).0 (m s).1 (km.at s h) }

module _ {O A : Type 0} (Q : A → State O → Type 0) (E : Error → State O → Type 0) where
  Post-map_error :
      (E' : Error → State O → Type 0) (f : Error → Error)
      → ((e : Error) (s : State O) → E' e s → E (f e) s)
      → (r : Result A) (s : State O) → Post Q E' r s
      → Post Q E (map_error f r) s
  Post-map_error E' f k (ok a) s h = h
  Post-map_error E' f k (err e) s h = k e s h

  Post-call :
      (r : Result A) (s : State O)
      → ((a : A) → r ≡ ok a → Q a s)
      → ((e : Error) → r ≡ err e → E e s)
      → Post Q E r s
  Post-call (ok a) s h g = h a refl
  Post-call (err e) s h g = g e refl

module _ {O A B : Type 0} {P : State O → Type 0} {R : B → State O → Type 0}
    {E : Error → State O → Type 0} where
  pub Ensures-bind :
      (Q : A → State O → Type 0) {m : Action O A} {f : A → Action O B}
      → Ensures P m Q E
      → ((a : A) → Ensures (Q a) (f a) R E)
      → Ensures P (m >>= f) R E
  unfolding ◌>>=◌
  Ensures-bind Q {m} {f} km kf = record {
    at = λ s h. continue-Post Q R E f kf (m s).0 (m s).1 (km.at s h);
  }

module _ {O A : Type 0} {P : State O → Type 0} {Q : A → State O → Type 0}
    {E : Error → State O → Type 0} where
  pub Ensures-pure : (a : A) → ((s : State O) → P s → Q a s) → Ensures P (pure a) Q E
  unfolding ◌>>=◌
  Ensures-pure a h = record { at = h }

  pub Ensures-fail : (e : Error) → ((s : State O) → P s → E e s) → Ensures P (fail {A = A} e) Q E
  unfolding ◌>>=◌
  Ensures-fail e h = record { at = h }

  pub Ensures-lift :
      (r : Result A)
      → ((a : A) → r ≡ ok a → (s : State O) → P s → Q a s)
      → ((e : Error) → r ≡ err e → (s : State O) → P s → E e s)
      → Ensures P (lift r) Q E
  unfolding ◌>>=◌
  Ensures-lift (ok a) h g = record { at = h a refl }
  Ensures-lift (err e) h g = record { at = g e refl }

  pub Ensures-branch :
      (b : Bool) {m n : Action O A}
      → (b ≡ true → Ensures P m Q E)
      → (b ≡ false → Ensures P n Q E)
      → Ensures P (branch b m n) Q E
  unfolding ◌>>=◌
  Ensures-branch true km kn = record { at = λ s h. (km refl).at s h }
  Ensures-branch false km kn = record { at = λ s h. (kn refl).at s h }

  -- The error is wrapped on its way out.
  pub Ensures-on_error :
      (E' : Error → State O → Type 0) (f : Error → Error) {m : Action O A}
      → Ensures P m Q E'
      → ((e : Error) (s : State O) → E' e s → E (f e) s)
      → Ensures P (on_error f m) Q E
  unfolding ◌>>=◌
  Ensures-on_error E' f {m} km k = record {
    at = λ s h. Post-map_error Q E E' f k (m s).0 (m s).1 (km.at s h);
  }

  -- The two premises say what holds after each answer of the call.
  pub Ensures-call :
      (log : Result A → Call) (answer : History → Result A)
      → ((a : A) (s : State O)
          → P s
          → answer s.history ≡ ok a
          → Q a (record s { history = log (ok a) ∷ s.history }))
      → ((e : Error) (s : State O)
          → P s
          → answer s.history ≡ err e
          → E e (record s { history = log (err e) ∷ s.history }))
      → Ensures P (call log answer) Q E
  unfolding ◌>>=◌
  Ensures-call log answer h g = record {
    at = λ s p.
        Post-call Q E (answer s.history) (record s { history = log (answer s.history) ∷ s.history })
          (λ a e. rw e (h a s p e)) (λ x e. rw e (g x s p e));
  }

  pub Ensures-weaken :
      {P' : State O → Type 0} {m : Action O A}
      → Ensures P m Q E
      → ((s : State O) → P' s → P s)
      → Ensures P' m Q E
  Ensures-weaken km h = record { at = λ s p. km.at s (h s p) }

module _ {O A : Type 0} {P : State O → Type 0} {Q : A → State O → Type 0}
    {E : Error → State O → Type 0} where
  -- What does not depend on the state is a hypothesis of its own.
  pub Ensures-given :
      {U : Type 0} {m : Action O A} → (U → Ensures P m Q E) → Ensures (λ s. U × P s) m Q E
  Ensures-given k = record { at = λ s h. (k h.0).at s h.1 }

module _ {O : Type 0} {P : State O → Type 0} {E : Error → State O → Type 0} where
  -- The object that is read is the one of the state.
  pub Ensures-object : Ensures P (object {O = O}) (λ o s. P s × (o ≡ s.object)) E
  unfolding ◌>>=◌
  Ensures-object = record { at = λ s p. (p, refl) }

module _ {O : Type 0} {P : State O → Type 0} {Q : Unit {0} → State O → Type 0}
    {E : Error → State O → Type 0} where
  pub Ensures-set_object :
      (o : O)
      → ((s : State O) → P s → Q tt (record s { object = o }))
      → Ensures P (set_object o) Q E
  unfolding ◌>>=◌
  Ensures-set_object o h = record { at = h }

  pub Ensures-modify :
      (f : O → O)
      → ((s : State O) → P s → Q tt (record s { object = f s.object }))
      → Ensures P (modify f) Q E
  unfolding ◌>>=◌
  Ensures-modify f h = record { at = h }

  pub Ensures-check :
      (e : Option Error)
      → (e ≡ none → (s : State O) → P s → Q tt s)
      → ((x : Error) → e ≡ some x → (s : State O) → P s → E x s)
      → Ensures P (check e) Q E
  unfolding ◌>>=◌
  Ensures-check none h g = record { at = h refl }
  Ensures-check (some e) h g = record { at = g e refl }

  pub Ensures-when :
      (b : Bool) {m : Action O (Unit {0})}
      → (b ≡ true → Ensures P m Q E)
      → (b ≡ false → (s : State O) → P s → Q tt s)
      → Ensures P (when b m) Q E
  unfolding ◌>>=◌
  Ensures-when true km h = km refl
  Ensures-when false km h = record { at = h refl }

module _ {O A : Type 0} where
  Post-both :
      (Q Q' : A → State O → Type 0) (E E' : Error → State O → Type 0)
      → ((a : A) (s : State O) → Q a s → Q' a s)
      → ((e : Error) (s : State O) → E e s → E' e s)
      → (r : Result A) (s : State O) → Post Q E r s
      → Post Q' E' r s
  Post-both Q Q' E E' k j (ok a) s h = k a s h
  Post-both Q Q' E E' k j (err e) s h = j e s h

  -- Less may be claimed of a success and of a failure.
  pub Ensures-both :
      {P : State O → Type 0} {m : Action O A} {Q Q' : A → State O → Type 0}
      {E E' : Error → State O → Type 0}
      → Ensures P m Q E
      → ((a : A) (s : State O) → Q a s → Q' a s)
      → ((e : Error) (s : State O) → E e s → E' e s)
      → Ensures P m Q' E'
  Ensures-both {m = m} {Q = Q} {Q' = Q'} {E = E} {E' = E'} km k j = record {
    at = λ s h. Post-both Q Q' E E' k j (m s).0 (m s).1 (km.at s h);
  }

  -- Less may be claimed of a success.
  pub Ensures-loosen :
      {P : State O → Type 0} {m : Action O A} {Q Q' : A → State O → Type 0}
      {E : Error → State O → Type 0}
      → Ensures P m Q E
      → ((a : A) (s : State O) → Q a s → Q' a s)
      → Ensures P m Q' E
  Ensures-loosen km k = Ensures-both km k (λ e s h. h)

  post_same : (E : State O → Type 0) (r : Result A) (s : State O) → Post (λ _. E) (λ _. E) r s → E s
  post_same E (ok a) s h = h
  post_same E (err e) s h = h

  -- What holds after success and after failure alike.
  pub Ensures-always :
      {P : State O → Type 0} {m : Action O A} {E : State O → Type 0}
      → Ensures P m (λ _. E) (λ _. E)
      → (s : State O) → P s
      → E (m s).1
  Ensures-always {m = m} {E = E} km s h = post_same E (m s).0 (m s).1 (km.at s h)

  Post-nothing : (r : Result A) (s : State O) → Post (λ _ _. Unit {0}) (λ _ _. Unit {0}) r s
  Post-nothing (ok a) s = tt
  Post-nothing (err e) s = tt

  post_ok :
      (Q : A → State O → Type 0) (E : Error → State O → Type 0) (r : Result A) (s : State O) {a : A}
      → r ≡ ok a
      → Post Q E r s
      → Q a s
  post_ok Q E (ok b) s {a} e h = let e' : b ≡ a = cc in subst (λ x. Q x s) e' h
  post_ok Q E (err x) s e h = cc

  post_err :
      (Q : A → State O → Type 0) (E : Error → State O → Type 0) (r : Result A) (s : State O)
      {e : Error}
      → r ≡ err e
      → Post Q E r s
      → E e s
  post_err Q E (ok a) s q h = cc
  post_err Q E (err x) s {e} q h = let q' : x ≡ e = cc in subst (λ y. E y s) q' h

  pub Ensures-success :
      {P : State O → Type 0} {m : Action O A} {Q : A → State O → Type 0}
      {E : Error → State O → Type 0}
      → Ensures P m Q E
      → (s : State O) → P s
      → {a : A} → (m s).0 ≡ ok a
      → Q a (m s).1
  Ensures-success {m = m} {Q = Q} {E = E} km s h e = post_ok Q E (m s).0 (m s).1 e (km.at s h)

  -- Nothing is claimed of an action.
  pub Ensures-nothing :
      {P : State O → Type 0} (m : Action O A) → Ensures P m (λ _ _. Unit {0}) (λ _ _. Unit {0})
  Ensures-nothing m = record { at = λ s h. Post-nothing (m s).0 (m s).1 }

  pub Ensures-failure :
      {P : State O → Type 0} {m : Action O A} {Q : A → State O → Type 0}
      {E : Error → State O → Type 0}
      → Ensures P m Q E
      → (s : State O) → P s
      → {e : Error} → (m s).0 ≡ err e
      → E e (m s).1
  Ensures-failure {m = m} {Q = Q} {E = E} km s h e = post_err Q E (m s).0 (m s).1 e (km.at s h)
