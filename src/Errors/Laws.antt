-- ===== src/Errors/Laws.antt =====
-- What `errors.Is` finds in the errors that the code builds.
use container_object_storage.Prelude.{
  String, ap, ◌++◌, ◌≡◌, ◌≢◌, ◌↔◌, none, inl, inr, refl, true, List, [], ◌∷◌, arith, Bool-cases,
}
use container_object_storage.Errors.{
  ok, err, Arg, Error, Errors, no_errors, more, errorf, wrapf, joined, non_retryable_error, foreign,
  errors_join, error_of, is_non_retryable, any_non_retryable,
}

mutual
  -- `Wraps x e`: following the methods `Unwrap` from `e` one comes upon `x`.
  pub data Wraps (x : Error) : Error → Type 0 where
    here : Wraps x x
    in_wrapf : {m : String} {a : List Arg} {e : Error} → Wraps x e → Wraps x (wrapf m a e)
    in_non_retryable_error : {e : Error} → Wraps x e → Wraps x (non_retryable_error e)
    in_joined : {es : Errors} → WrapsOne x es → Wraps x (joined es)

  pub data WrapsOne (x : Error) : Errors → Type 0 where
    first : {e : Error} {es : Errors} → Wraps x e → WrapsOne x (more e es)
    later : {e : Error} {es : Errors} → WrapsOne x es → WrapsOne x (more e es)

mutual
  unfolding is_non_retryable

  found : (e : Error) → is_non_retryable e ≡ true → (c : Error) × Wraps (non_retryable_error c) e
  found (errorf m a) h = cc
  found (wrapf m a e) h = let (c, w) = found e h in (c, in_wrapf w)
  found (joined es) h = let (c, w) = found_one es h in (c, in_joined w)
  found (non_retryable_error e) h = (e, here)
  found (foreign n) h = cc

  found_one :
      (es : Errors)
      → any_non_retryable es ≡ true
      → (c : Error) × WrapsOne (non_retryable_error c) es
  found_one no_errors h = cc
  found_one (more e es) h = elim (Bool-cases (is_non_retryable e)) [
    | inl p ↦ let (c, w) = found e p in (c, first w)
    | inr p ↦ let (c, w) = found_one es (rw p at h) in (c, later w)
  ]

mutual
  unfolding is_non_retryable

  finds : {x e : Error} → Wraps x e → is_non_retryable x ≡ true → is_non_retryable e ≡ true
  finds here h = h
  finds (in_wrapf w) h = finds w h
  finds (in_non_retryable_error w) h = refl
  finds (in_joined w) h = finds_one w h

  finds_one :
      {x : Error} {es : Errors}
      → WrapsOne x es
      → is_non_retryable x ≡ true
      → any_non_retryable es ≡ true
  finds_one (first w) h = rw (finds w h)
  finds_one (later {e = e} w) h = rw (finds_one w h) (ground arith)

-- `errors.Is(err, NonRetryableError(nil))` holds of an error exactly when following `Unwrap` from it
-- comes upon a `NonRetryableError`.
pub is_non_retryable-iff-Wraps :
    (e : Error) → (is_non_retryable e ≡ true) ↔ ((c : Error) × Wraps (non_retryable_error c) e)
unfolding is_non_retryable
is_non_retryable-iff-Wraps e = (found e, λ w. finds w.1 refl)

any_non_retryable-to_errors :
    (e : Error) (es fs : List Error)
    → is_non_retryable e ≡ true
    → is_non_retryable (errors_join (es ++ e ∷ fs)) ≡ true
unfolding is_non_retryable errors_join
any_non_retryable-to_errors e [] fs h = rw h
any_non_retryable-to_errors e (x ∷ es) fs h =
    rw (any_non_retryable-to_errors e es fs h) (ground arith)

-- No error from a list of errors means that there is none in it.
pub error_of-none : (format : String) (errs : List Error) → error_of format errs ≡ none → errs ≡ []
unfolding error_of
error_of-none format [] h = refl
error_of-none format (e ∷ es) h = cc

pub append_ne_nil : (es : List Error) (e : Error) → es ++ e ∷ [] ≢ []
append_ne_nil [] e h = cc
append_ne_nil (x ∷ es) e h = cc

pub append_eq_nil {ℓ} : {A : Type ℓ} (xs ys : List A) → xs ++ ys ≡ [] → (xs ≡ []) × (ys ≡ [])
append_eq_nil [] ys e = (refl, e)
append_eq_nil (x ∷ xs) ys e = cc

pub ok_injective {ℓ} : {A : Type ℓ} {a b : A} → ok a ≡ ok b → a ≡ b
ok_injective {a = a} h = ap (λ r. elim r [ ok c ↦ c | err e ↦ a ]) h
