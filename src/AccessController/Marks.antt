-- ===== src/AccessController/Marks.antt =====
-- bucketaccess.go of the Controller: the BucketClaims that a BucketAccess references, and their marks.
use container_object_storage.Prelude.{
  String, Bool, false, not, ◌||◌, ◌&&◌, Option, none, some, List, [], ◌∷◌, ◌++◌, ◌==◌, Dict,
  dict_set, dict_delete, if◌then◌else◌,
}
use container_object_storage.Errors.{Error, Result, ok, err, error_of}
use container_object_storage.Api.Meta.{has_bucket_access_references_annotation, has_annotation}
use container_object_storage.Api.Bucket.{BucketClaim}
use container_object_storage.Api.Access.{BucketAccess, BucketClaimAccess}
use container_object_storage.World.{Env, get_bucket_claim, update_bucket_claim}
use container_object_storage.World.Action.{
  Action, ◌>>=◌, ◌>>◌, pure, try, call, branch, range, check,
}

-- `map[string]*cosiapi.BucketClaim`; a nil pointer is `none`.
abbrev pub Claims : Type 0
Claims = Dict (Option BucketClaim)

abbrev pub marked : BucketClaim → BucketClaim
marked claim = record claim {
  metadata = record claim.metadata {
    annotations = dict_set claim.metadata.annotations has_bucket_access_references_annotation "";
  };
}

abbrev pub unmarked : BucketClaim → BucketClaim
unmarked claim = record claim {
  metadata = record claim.metadata {
    annotations = dict_delete claim.metadata.annotations has_bucket_access_references_annotation;
  };
}

abbrev pub is_marked : BucketClaim → Bool
is_marked claim = has_annotation has_bucket_access_references_annotation claim.metadata

unfoldable pub has_reference : String → List BucketClaimAccess → Bool
has_reference claim_name [] = false
has_reference claim_name (ref ∷ refs) =
    ref.bucket_claim_name == claim_name || has_reference claim_name refs

unfoldable pub has_bucket_access_references : String → List BucketAccess → String → Bool
unfolding has_reference
has_bucket_access_references claim_name [] ignored = false
has_bucket_access_references claim_name (access ∷ accesses) ignored =
    not (access.metadata.name == ignored) && has_reference claim_name access.spec.bucket_claims
    || has_bucket_access_references claim_name accesses ignored

module _ (env : Env) where
  -- What the loop of `getAllBucketClaims` does with an answer.
  unfoldable pub collect_claim :
      String → Result BucketClaim → Claims × List Error → Claims × List Error
  collect_claim name (ok claim) (claims, errs) = (dict_set claims name (some claim), errs)
  collect_claim name (err e) (claims, errs) =
      if env.is_not_found e then (dict_set claims name none, errs) else (claims, errs ++ e ∷ [])

  unfoldable pub get_claim :
      String → BucketClaimAccess → Claims × List Error → Action BucketAccess (Claims × List Error)
  get_claim namespace ref acc = do
    got ← try (
        call (get_bucket_claim namespace ref.bucket_claim_name)
          (λ h. env.on_get_bucket_claim h namespace ref.bucket_claim_name))
    pure (collect_claim ref.bucket_claim_name got acc)

  unfoldable pub get_all_bucket_claims :
      String → List BucketClaimAccess → Action BucketAccess Claims
  get_all_bucket_claims namespace refs = do
    acc ← range (get_claim namespace) refs ([], [])
    check (error_of "could not get one or more BucketClaims: %w" acc.1)
    pure acc.0

  -- The claim in the map becomes what the server stored; on an error it stays marked in memory.
  unfoldable pub collect_marked :
      String → BucketClaim → Result BucketClaim → Claims × List Error → Claims × List Error
  collect_marked name claim (ok stored) (claims, errs) = (dict_set claims name (some stored), errs)
  collect_marked name claim (err e) (claims, errs) =
      (dict_set claims name (some (marked claim)), errs ++ e ∷ [])

  unfoldable pub mark_claim :
      String × Option BucketClaim → Claims × List Error → Action BucketAccess (Claims × List Error)
  mark_claim (name, none) acc = pure acc
  mark_claim (name, some claim) acc = branch (is_marked claim) (pure acc) do
    r ← try (
        call (update_bucket_claim (marked claim))
          (λ h. env.on_update_bucket_claim h (marked claim)))
    pure (collect_marked name claim r acc)

  -- The map with the claims as they are after the marking, which changes them in place.
  unfoldable pub mark_all_bucket_claims_as_accessed : Claims → Action BucketAccess Claims
  mark_all_bucket_claims_as_accessed claims = do
    acc ← range mark_claim claims (claims, [])
    check (
        error_of "failed to mark one or more BucketClaims as having a BucketAccess reference: %w"
          acc.1)
    pure acc.0

  unfoldable pub collect_unmarked : Result BucketClaim → List Error → List Error
  collect_unmarked (ok stored) errs = errs
  collect_unmarked (err e) errs = errs ++ e ∷ []

  unfoldable pub unmark_claim :
      List BucketAccess
      → String
      → String × Option BucketClaim
      → List Error
      → Action BucketAccess (List Error)
  unmark_claim accesses ignored (name, none) errs = pure errs
  unmark_claim accesses ignored (name, some claim) errs =
      branch (not (is_marked claim)) (pure errs) (
        branch (has_bucket_access_references claim.metadata.name accesses ignored) (pure errs) do
          r ← try (
              call (update_bucket_claim (unmarked claim))
                (λ h. env.on_update_bucket_claim h (unmarked claim)))
          pure (collect_unmarked r errs))

  -- The list of the names that were unmarked is only logged, and left out.
  unfoldable pub unmark_unaccessed_bucket_claims :
      Claims → List BucketAccess → String → Action BucketAccess (Unit {0})
  unmark_unaccessed_bucket_claims claims accesses ignored = do
    errs ← range (unmark_claim accesses ignored) claims []
    check (
        error_of "failed to unmark one or more BucketClaims without referencing BucketAccesses: %w"
          errs)
