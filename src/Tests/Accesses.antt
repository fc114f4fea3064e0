-- ===== src/Tests/Accesses.antt =====
-- The validations of BucketAccesses in the Controller.
use container_object_storage.Prelude.{◌≡◌, ◌≢◌, ◌↔◌, ◌≤◌, none, List, [], ◌∷◌, All, length}
use container_object_storage.Api.Access.{
  BucketClaimAccess, BucketAccessSpec, BucketAccessClassSpec, service_account_authentication,
  multiple_buckets,
}
use container_object_storage.AccessController.Validation.{
  validate_all_bucket_claim_references_unique, validate_access_against_class,
}
use container_object_storage.AccessController.Laws.{
  IsUnique, validate_all_bucket_claim_references_unique_iff, validate_access_against_class_iff,
}

abbrev references : List BucketClaimAccess
references =
    record { bucket_claim_name = "photos"; access_mode = "ReadOnly"; access_secret_name = "p" }
    ∷ record { bucket_claim_name = "logs"; access_mode = "ReadWrite"; access_secret_name = "l" }
    ∷ []

abbrev access : BucketAccessSpec
access = record {
  bucket_claims = references;
  bucket_access_class_name = "gold";
  protocol = "S3";
  service_account_name = "";
}

abbrev class : BucketAccessClassSpec
class = record {
  driver_name = "s3.example.com";
  authentication_type = "ServiceAccount";
  parameters = [];
  disallowed_bucket_access_modes = "WriteOnly" ∷ [];
  multi_bucket_access = "SingleBucket";
}

validate_all_bucket_claim_references_unique_iff_example :
    (validate_all_bucket_claim_references_unique references ≡ none) ↔ IsUnique references
validate_all_bucket_claim_references_unique_iff_example =
    validate_all_bucket_claim_references_unique_iff references

validate_access_against_class_iff_example : (validate_access_against_class class access ≡ none) ↔ (
    (class.authentication_type ≡ service_account_authentication → access.service_account_name ≢ "")
    × (class.multi_bucket_access ≢ multiple_buckets → length access.bucket_claims ≤ 1)
    × All
        (λ r. All (λ m. m ≢ r.access_mode) class.disallowed_bucket_access_modes)
        access.bucket_claims)
validate_access_against_class_iff_example = validate_access_against_class_iff class access
