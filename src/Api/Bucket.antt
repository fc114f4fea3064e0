-- ===== src/Api/Bucket.antt =====
-- bucket_types.go, bucketclaim_types.go and bucketclass_types.go.
use container_object_storage.Prelude.{String, Bool, Option, List, Dict}
use container_object_storage.Api.Meta.{ObjectMeta, TimestampedError}

abbrev pub retain : String
retain = "Retain"

abbrev pub delete : String
delete = "Delete"

pub record BucketClaimReference : Type 0 where
  pub name : String
  pub namespace : String
  pub uid : String

pub record BucketSpec : Type 0 where
  pub driver_name : String
  pub deletion_policy : String
  pub parameters : Dict String
  pub protocols : List String
  pub bucket_claim_ref : BucketClaimReference
  pub existing_bucket_id : String

pub record BucketStatus : Type 0 where
  pub ready_to_use : Option Bool
  pub bucket_id : String
  pub protocols : List String
  pub bucket_info : Dict String
  pub error : Option TimestampedError

pub record Bucket : Type 0 where
  pub metadata : ObjectMeta
  pub spec : BucketSpec
  pub status : BucketStatus

pub record BucketClaimSpec : Type 0 where
  pub bucket_class_name : String
  pub protocols : List String
  pub existing_bucket_name : String

pub record BucketClaimStatus : Type 0 where
  pub bound_bucket_name : String
  pub ready_to_use : Option Bool
  pub protocols : List String
  pub error : Option TimestampedError

pub record BucketClaim : Type 0 where
  pub metadata : ObjectMeta
  pub spec : BucketClaimSpec
  pub status : BucketClaimStatus

pub record BucketClassSpec : Type 0 where
  pub driver_name : String
  pub deletion_policy : String
  pub parameters : Dict String

pub record BucketClass : Type 0 where
  pub metadata : ObjectMeta
  pub spec : BucketClassSpec
