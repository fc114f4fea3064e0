-- ===== src/AccessController/Validation.antt =====
-- bucketaccess.go of the Controller: the validations of a BucketAccess.
use container_object_storage.Prelude.{
  ℕ, ◌+◌, ◌&&◌, String, Bool, true, false, not, Option, none, some, List, [], ◌∷◌, ◌++◌, ◌==◌,
  length, contains, nat_lt, Dict, dict_get, dict_set, if◌then◌else◌,
}
use container_object_storage.Errors.{
  Error, errorf, text, counts, non_retryable_error, error_of, error_if,
}
use container_object_storage.Api.Access.{
  BucketClaimAccess, BucketAccessSpec, BucketAccessClassSpec, service_account_authentication,
  supports_multi_bucket_access,
}

-- One step of the loop, with what `claimCounts` has for the name.
unfoldable pub count_reference : Option ℕ → String → Dict ℕ × Bool → Dict ℕ × Bool
count_reference none name (claim_counts, do_err) = (dict_set claim_counts name 1, do_err)
count_reference (some count) name (claim_counts, do_err) =
    (dict_set claim_counts name (count + 1), true)

unfoldable pub count_references : List BucketClaimAccess → Dict ℕ × Bool → Dict ℕ × Bool
unfolding count_reference
count_references [] acc = acc
count_references (ref ∷ refs) acc =
    count_references refs
      (count_reference (dict_get acc.0 ref.bucket_claim_name) ref.bucket_claim_name acc)

unfoldable pub validate_all_bucket_claim_references_unique : List BucketClaimAccess → Option Error
unfolding count_references
validate_all_bucket_claim_references_unique claim_accesses =
    let (claim_counts, do_err) = count_references claim_accesses ([], false) in
    if do_err
    then some (
        non_retryable_error (
          errorf "one or more BucketClaims are referenced multiple times, with reference counts: %v"
            (counts claim_counts ∷ [])))
    else none

unfoldable pub disallowed_modes : List String → List BucketClaimAccess → List Error
disallowed_modes disallowed [] = []
disallowed_modes disallowed (ref ∷ refs) =
    error_if (contains disallowed ref.access_mode) (
      errorf "accessMode %q requested for BucketClaim %q is disallowed"
        (text ref.access_mode ∷ text ref.bucket_claim_name ∷ []))
    ++ disallowed_modes disallowed refs

unfoldable pub validate_access_against_class :
    BucketAccessClassSpec → BucketAccessSpec → Option Error
unfolding disallowed_modes
validate_access_against_class class access =
    error_of "one or more features are disallowed by the BucketAccessClass: %w" (
      error_if
        (class.authentication_type == service_account_authentication
          && access.service_account_name == "")
        (errorf "serviceAccountName must be specified" [])
      ++ (error_if
            (not (supports_multi_bucket_access class) && nat_lt 1 (length access.bucket_claims))
            (errorf "multi-bucket access is disallowed" [])
          ++ disallowed_modes class.disallowed_bucket_access_modes access.bucket_claims))
