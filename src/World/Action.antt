-- ===== src/World/Action.antt =====
-- Actions of a reconciler: they read and change the object that is reconciled, make calls, and may
-- fail. What was done before a failure stays done.
use container_object_storage.Prelude.{Bool, true, false, Option, none, some, List, [], ◌∷◌}
use container_object_storage.Errors.{Error, Result, ok, err}
use container_object_storage.World.{Call, History}

pub record State (O : Type 0) : Type 0 where
  pub object : O
  pub history : History

abbrev pub start : {O : Type 0} → O → State O
start o = record { object = o; history = [] }

abbrev pub Action : Type 0 → Type 0 → Type 0
Action O A = State O → Result A × State O

module _ {A : Type 0} where
  abbrev pub map_error : (Error → Error) → Result A → Result A
  map_error f (ok a) = ok a
  map_error f (err e) = err (f e)

module _ {O A : Type 0} where
  pub pure : A → Action O A
  pure a s = (ok a, s)

  pub fail : Error → Action O A
  fail e s = (err e, s)

  -- A pure function that may fail.
  pub lift : Result A → Action O A
  lift r s = (r, s)

  -- `x, err := f(…)` where the code goes on with the error.
  pub try : Action O A → Action O (Result A)
  try m s = let (r, s') = m s in (ok r, s')

  -- `if err := m(…); err != nil { return f(err) }`
  pub on_error : (Error → Error) → Action O A → Action O A
  on_error f m s = let (r, s') = m s in (map_error f r, s')

  -- `if … { … } else { … }` between actions.
  pub branch : Bool → Action O A → Action O A → Action O A
  branch true m n s = m s
  branch false m n s = n s

  -- A call to the API server or to the driver, recorded with its answer.
  pub call : (Result A → Call) → (History → Result A) → Action O A
  call log answer s = let r = answer s.history in (r, record s { history = log r ∷ s.history })

module _ {O : Type 0} where
  pub object : Action O O
  object s = (ok s.object, s)

  pub set_object : O → Action O (Unit {0})
  set_object o s = (ok tt, record s { object = o })

  pub modify : (O → O) → Action O (Unit {0})
  modify f s = (ok tt, record s { object = f s.object })

  -- `if err := f(…); err != nil { return err }` for a pure check.
  pub check : Option Error → Action O (Unit {0})
  check none s = (ok tt, s)
  check (some e) s = (err e, s)

  pub when : Bool → Action O (Unit {0}) → Action O (Unit {0})
  when true m s = m s
  when false m s = (ok tt, s)

module _ {O A B : Type 0} where
  abbrev pub continue : Result A → (A → Action O B) → Action O B
  continue (ok a) f s = f a s
  continue (err e) f s = (err e, s)

  infixl 5 ◌>>=◌
  -- Opening this opens the actions above too.
  unfoldable pub ◌>>=◌ : Action O A → (A → Action O B) → Action O B
  unfolding pure fail lift try on_error branch call object set_object modify check when
  ◌>>=◌ m f s = let (r, s') = m s in continue r f s'

module _ {O B : Type 0} where
  infixl 5 ◌>>◌
  abbrev pub ◌>>◌ : Action O (Unit {0}) → Action O B → Action O B
  m >> k = m >>= λ _. k

module _ {O X S : Type 0} where
  -- `for _, x := range xs { … }` where the body changes variables of the function.
  unfoldable pub range : (X → S → Action O S) → List X → S → Action O S
  unfolding ◌>>=◌
  range body [] s = pure s
  range body (x ∷ xs) s = body x s >>= range body xs
