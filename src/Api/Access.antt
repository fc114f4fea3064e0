-- ===== src/Api/Access.antt =====
-- bucketaccess_types.go and bucketaccessclass_types.go.
use container_object_storage.Prelude.{String, Bool, Option, List, Dict, ◌==◌}
use container_object_storage.Api.Meta.{ObjectMeta, TimestampedError}

abbrev pub key_authentication : String
key_authentication = "Key"

abbrev pub service_account_authentication : String
service_account_authentication = "ServiceAccount"

abbrev pub read_write_mode : String
read_write_mode = "ReadWrite"

abbrev pub read_only_mode : String
read_only_mode = "ReadOnly"

abbrev pub write_only_mode : String
write_only_mode = "WriteOnly"

abbrev pub multiple_buckets : String
multiple_buckets = "MultipleBuckets"

pub record BucketClaimAccess : Type 0 where
  pub bucket_claim_name : String
  pub access_mode : String
  pub access_secret_name : String

pub record AccessedBucket : Type 0 where
  pub bucket_name : String
  pub bucket_id : String
  pub bucket_claim_name : String

pub record BucketAccessSpec : Type 0 where
  pub bucket_claims : List BucketClaimAccess
  pub bucket_access_class_name : String
  pub protocol : String
  pub service_account_name : String

pub record BucketAccessStatus : Type 0 where
  pub ready_to_use : Option Bool
  pub account_id : String
  pub accessed_buckets : List AccessedBucket
  pub driver_name : String
  pub authentication_type : String
  pub parameters : Dict String
  pub error : Option TimestampedError

pub record BucketAccess : Type 0 where
  pub metadata : ObjectMeta
  pub spec : BucketAccessSpec
  pub status : BucketAccessStatus

pub record BucketAccessClassSpec : Type 0 where
  pub driver_name : String
  pub authentication_type : String
  pub parameters : Dict String
  pub disallowed_bucket_access_modes : List String
  pub multi_bucket_access : String

pub record BucketAccessClass : Type 0 where
  pub metadata : ObjectMeta
  pub spec : BucketAccessClassSpec

-- The default is single-bucket access.
unfoldable pub supports_multi_bucket_access : BucketAccessClassSpec → Bool
supports_multi_bucket_access s = s.multi_bucket_access == multiple_buckets
