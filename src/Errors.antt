-- ===== src/Errors.antt =====
-- internal/errors/errors.go, with what the code uses of Go's `errors` and `fmt` packages: an error
-- is the tree of what `fmt.Errorf`, `errors.Join` and `NonRetryableError` wrap.
pub mod Laws
use container_object_storage.Prelude.{
  ◌≡◌, ◌⊎◌, inl, inr, refl, ℕ, String, Bool, true, false, ◌||◌, Option, none, some, List, [], ◌∷◌,
  is_empty,
}

-- An argument of `fmt.Errorf`: a text, a number, a list of texts, a map of flags or
-- counts, or the result of `fmt.Sprintf` on texts.
pub data Arg : Type 0 where
  text : String → Arg
  number : ℕ → Arg
  texts : List String → Arg
  flags : List (String × Bool) → Arg
  counts : List (String × ℕ) → Arg
  message : String → List String → Arg

mutual
  -- `errorf` is `fmt.Errorf` with no `%w`, `wrapf` is `fmt.Errorf` with one. A `foreign` error comes
  -- from a library (the API client, the RPC client), and is opaque here.
  pub data Error : Type 0 where
    errorf : String → List Arg → Error
    wrapf : String → List Arg → Error → Error
    joined : Errors → Error
    non_retryable_error : Error → Error
    foreign : ℕ → Error

  pub data Errors : Type 0 where
    no_errors : Errors
    more : Error → Errors → Errors

to_errors : List Error → Errors
to_errors [] = no_errors
to_errors (e ∷ es) = more e (to_errors es)

-- errors.Join
unfoldable pub errors_join : List Error → Error
unfolding to_errors
errors_join es = joined (to_errors es)

-- `errors.Is(err, NonRetryableError(nil))`: the tree of wrapped errors is searched, and the method
-- `Is` of a non-retryable error holds of every target that is itself a non-retryable error.
unfoldable mutual
  pub is_non_retryable : Error → Bool
  is_non_retryable (errorf m a) = false
  is_non_retryable (wrapf m a e) = is_non_retryable e
  is_non_retryable (joined es) = any_non_retryable es
  is_non_retryable (non_retryable_error e) = true
  is_non_retryable (foreign n) = false

  pub any_non_retryable : Errors → Bool
  any_non_retryable no_errors = false
  any_non_retryable (more e es) = is_non_retryable e || any_non_retryable es

-- The methods `Unwrap` of an error, as far as one error is wrapped.
unfoldable pub unwrap : Error → Option Error
unwrap (wrapf m a e) = some e
unwrap (non_retryable_error e) = some e
unwrap _ = none

pub data Result {ℓ} (A : Type ℓ) : Type ℓ where
  ok : A → Result A
  err : Error → Result A

pub Result-cases {ℓ} :
    {A : Type ℓ} (r : Result A) → ((a : A) × (r ≡ ok a)) ⊎ ((e : Error) × (r ≡ err e))
Result-cases (ok a) = inl (a, refl)
Result-cases (err e) = inr (e, refl)

-- The close of each validation: `if len(errs) > 0 { return fmt.Errorf(format, errors.Join(errs...))
-- }`.
unfoldable pub error_of : String → List Error → Option Error
error_of format [] = none
error_of format (e ∷ es) = some (wrapf format [] (errors_join (e ∷ es)))

-- What `if failed { errs = append(errs, e) }` adds to the list.
abbrev pub error_if : Bool → Error → List Error
error_if true e = e ∷ []
error_if false e = []
