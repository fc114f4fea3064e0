-- ===== src/World.antt =====
-- The world of the reconcilers: the Kubernetes API server, the driver and the clock answer the calls
-- of the code. What they answer is the parameter `Env`, which may depend on all earlier calls and
-- answers, so that every behaviour of the server, of other writers and of the driver is covered. The
-- calls are recorded, the latest first.
pub mod Action
pub mod Ensures
pub mod Report
pub mod Accesses
pub mod Recorded
use container_object_storage.Prelude.{ℕ, String, Bool, List}
use container_object_storage.Errors.{Error, Result}
use container_object_storage.Api.Bucket.{Bucket, BucketClaim, BucketClass}
use container_object_storage.Api.Access.{BucketAccess, BucketAccessClass}
use container_object_storage.Api.Secret.{Secret}
use container_object_storage.Rpc.{
  DriverGrantBucketAccessRequest, DriverGrantBucketAccessResponse, DriverRevokeBucketAccessRequest,
  DriverCreateBucketRequest, DriverGetExistingBucketRequest, BucketResponse,
}
use container_object_storage.Runtime.{Runtime}
use container_object_storage.Driver.{Code}

-- A call with the answer that it got. An update is answered by the object as the server stored it.
pub data Call : Type 0 where
  get_bucket : String → Result Bucket → Call
  create_bucket : Bucket → Result Bucket → Call
  update_bucket : Bucket → Result Bucket → Call
  update_bucket_status : Bucket → Result Bucket → Call
  delete_bucket : Bucket → Result (Unit {0}) → Call
  get_bucket_claim : String → String → Result BucketClaim → Call
  update_bucket_claim : BucketClaim → Result BucketClaim → Call
  update_bucket_claim_status : BucketClaim → Result BucketClaim → Call
  get_bucket_class : String → Result BucketClass → Call
  get_bucket_access : String → String → Result BucketAccess → Call
  update_bucket_access : BucketAccess → Result BucketAccess → Call
  update_bucket_access_status : BucketAccess → Result BucketAccess → Call
  list_bucket_accesses : String → Result (List BucketAccess) → Call
  get_bucket_access_class : String → Result BucketAccessClass → Call
  get_secret : String → String → Result Secret → Call
  create_secret : Secret → Result Secret → Call
  update_secret : Secret → Result Secret → Call
  delete_secret : Secret → Result (Unit {0}) → Call
  driver_create_bucket : DriverCreateBucketRequest → Result BucketResponse → Call
  driver_get_existing_bucket : DriverGetExistingBucketRequest → Result BucketResponse → Call
  driver_grant_bucket_access :
      DriverGrantBucketAccessRequest → Result DriverGrantBucketAccessResponse → Call
  driver_revoke_bucket_access : DriverRevokeBucketAccessRequest → Result (Unit {0}) → Call

abbrev pub History : Type 0
History = List Call

pub record Env : Type 0 where
  pub runtime : Runtime
  -- kerrors.IsNotFound
  pub is_not_found : Error → Bool
  -- status.Code
  pub status_code : Error → Code
  -- err.Error()
  pub error_text : Error → String
  -- time.Now()
  pub now : History → ℕ
  pub on_get_bucket : History → String → Result Bucket
  pub on_create_bucket : History → Bucket → Result Bucket
  pub on_update_bucket : History → Bucket → Result Bucket
  pub on_update_bucket_status : History → Bucket → Result Bucket
  pub on_delete_bucket : History → Bucket → Result (Unit {0})
  pub on_get_bucket_claim : History → String → String → Result BucketClaim
  pub on_update_bucket_claim : History → BucketClaim → Result BucketClaim
  pub on_update_bucket_claim_status : History → BucketClaim → Result BucketClaim
  pub on_get_bucket_class : History → String → Result BucketClass
  pub on_get_bucket_access : History → String → String → Result BucketAccess
  pub on_update_bucket_access : History → BucketAccess → Result BucketAccess
  pub on_update_bucket_access_status : History → BucketAccess → Result BucketAccess
  pub on_list_bucket_accesses : History → String → Result (List BucketAccess)
  pub on_get_bucket_access_class : History → String → Result BucketAccessClass
  pub on_get_secret : History → String → String → Result Secret
  pub on_create_secret : History → Secret → Result Secret
  pub on_update_secret : History → Secret → Result Secret
  pub on_delete_secret : History → Secret → Result (Unit {0})
  pub on_driver_create_bucket : History → DriverCreateBucketRequest → Result BucketResponse
  pub on_driver_get_existing_bucket :
      History → DriverGetExistingBucketRequest → Result BucketResponse
  pub on_driver_grant_bucket_access :
      History → DriverGrantBucketAccessRequest → Result DriverGrantBucketAccessResponse
  pub on_driver_revoke_bucket_access : History → DriverRevokeBucketAccessRequest → Result (Unit {0})

-- What a `Reconcile` returns: no error, an error to be retried, or a terminal error.
pub data Outcome : Type 0 where
  success : Outcome
  retry : Error → Outcome
  terminal : Error → Outcome
