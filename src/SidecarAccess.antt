-- ===== src/SidecarAccess.antt =====
-- sidecar/pkg/reconciler/bucketaccess.go: the reconciler of BucketAccesses in the Sidecar.
pub mod Config
pub mod Granted
pub mod Buckets
pub mod Secrets
pub mod Evidence
pub mod Ownership
pub mod Ready
pub mod Storing
pub mod Answer
pub mod Grant
pub mod Granting
pub mod Removal
pub mod Outcomes
pub mod Laws
pub mod Recording
pub mod Requests
pub mod Collisions
pub mod Steadiness
use container_object_storage.Prelude.{
  String, Bool, true, false, not, Option, none, some, List, [], ◌∷◌, ◌==◌, dict_set, if◌then◌else◌,
}
use container_object_storage.Errors.{Error, errorf, wrapf, non_retryable_error, Result}
use container_object_storage.Api.Meta.{
  protection_finalizer, sidecar_cleanup_finished_annotation, is_deleting,
}
use container_object_storage.Api.Access.{BucketAccess}
use container_object_storage.Rpc.{
  DriverGrantBucketAccessRequest, DriverGrantBucketAccessResponse, DriverRevokeBucketAccessRequest,
}
use container_object_storage.Driver.{DriverInfo, Code, out_of_range}
use container_object_storage.Ownership.{managed_by_sidecar, sidecar_requirements_present}
use container_object_storage.SidecarBucket.{non_retryable_option}
use container_object_storage.SidecarBucket.Provision.{rpc_error}
use container_object_storage.World.{
  Env, History, Outcome, get_bucket_access, driver_grant_bucket_access, driver_revoke_bucket_access,
}
use container_object_storage.World.Action.{
  Action, ◌>>=◌, ◌>>◌, pure, lift, call, on_error, object, modify, check, branch, when,
}
use container_object_storage.World.Accesses.{
  update_access, update_access_status, protect_access, access_reporter,
}
use container_object_storage.World.Report.{reconcile_found}
use Config.{
  InternalGrantAccessConfig, new_internal_grant_access_config, rpc_grant_buckets_list,
  InternalRevokeAccessConfig, new_internal_revoke_access_config,
}
use Granted.{
  GrantedAccessApiDetails, translate_driver_grant_bucket_access_response_to_api,
  validate_granted_access,
}
use Buckets.{get_and_validate_all_accessed_buckets}
use Secrets.{reserve_access_secrets, update_secrets_with_granted_info, delete_owned_access_secrets}

-- `if !initialized { return cosierr.NonRetryableError(…) }`
unfoldable pub not_initialized : Bool → Option Error
not_initialized true = none
not_initialized false = some (
    non_retryable_error
      (errorf "processed a BucketAccess that should be managed by COSI Controller" []))

abbrev pub grant_request : InternalGrantAccessConfig → DriverGrantBucketAccessRequest
grant_request cfg = record {
  account_name = cfg.account_name;
  protocol = cfg.shared.protocol;
  authentication_type = cfg.shared.authentication_type;
  service_account_name = cfg.shared.service_account_name;
  parameters = cfg.shared.parameters;
  buckets = rpc_grant_buckets_list cfg.access_configs_by_bucket_id;
}

abbrev pub revoke_request :
    BucketAccess → InternalRevokeAccessConfig → DriverRevokeBucketAccessRequest
revoke_request access cfg = record {
  account_id = access.status.account_id;
  protocol = cfg.shared.protocol;
  authentication_type = cfg.shared.authentication_type;
  service_account_name = cfg.shared.service_account_name;
  parameters = cfg.shared.parameters;
  buckets = cfg.revoke_bucket_list;
}

is_out_of_range : Code → Bool
is_out_of_range out_of_range = true
is_out_of_range _ = false

abbrev pub granted_status : String → BucketAccess → BucketAccess
granted_status account_id access = record access {
  status = record access.status { account_id = account_id; ready_to_use = some true; error = none };
}

abbrev pub revoking_status : BucketAccess → BucketAccess
revoking_status access = record access {
  status = record access.status { ready_to_use = some false; error = none };
}

abbrev pub cleaned_up : BucketAccess → BucketAccess
cleaned_up access = record access {
  metadata = record access.metadata {
    annotations = dict_set access.metadata.annotations sidecar_cleanup_finished_annotation "";
  };
}

module _ (env : Env) where
  unfoldable pub grant_error : Error → Error
  unfolding is_out_of_range
  grant_error e =
      if is_out_of_range (env.status_code e)
      then non_retryable_error (wrapf "driver does not support multi-bucket access: %w" [] e)
      else rpc_error env e

  unfoldable pub driver_grant_access :
      InternalGrantAccessConfig → Action BucketAccess DriverGrantBucketAccessResponse
  unfolding grant_error
  driver_grant_access cfg = on_error (grant_error) (
      call (driver_grant_bucket_access (grant_request cfg))
        (λ h. env.on_driver_grant_bucket_access h (grant_request cfg)))

  -- From the call of the driver on.
  unfoldable pub grant : InternalGrantAccessConfig → Action BucketAccess (Unit {0})
  grant cfg = do
    access ← object
    resp ← driver_grant_access cfg
    details ← on_error non_retryable_error (
        lift (
          translate_driver_grant_bucket_access_response_to_api resp (record {
            expected_protocol = access.spec.protocol;
            authentication_type = access.status.authentication_type;
          })))
    check (non_retryable_option (validate_granted_access cfg details))
    update_secrets_with_granted_info env cfg details
    modify (granted_status details.account_id)
    on_error (wrapf "failed to update BucketAccess status after successful access grant: %w" [])
        (update_access_status env)

  -- The reconcile of a BucketAccess of this driver that is not being deleted.
  unfoldable pub provision_access : Action BucketAccess (Unit {0})
  provision_access = do
    found ← object
    initialized ←
        on_error (λ e. non_retryable_error (wrapf "processed a degraded BucketAccess: %w" [] e))
          (lift (sidecar_requirements_present found.status))
    check (not_initialized initialized)
    protect_access env
    get_and_validate_all_accessed_buckets env
    secrets ← reserve_access_secrets env
    access ← object
    cfg ←
        on_error
          (wrapf "failed to build internal representation of grant-access configuration: %w" [])
          (lift (new_internal_grant_access_config access secrets))
    grant cfg

  unfoldable pub driver_revoke_access : Action BucketAccess (Unit {0})
  driver_revoke_access = do
    access ← object
    cfg ←
        on_error
          (wrapf "failed to build internal representation of revoke-access configuration: %w" [])
          (lift (new_internal_revoke_access_config access))
    on_error (rpc_error env) (
        call (driver_revoke_bucket_access (revoke_request access cfg))
          (λ h. env.on_driver_revoke_bucket_access h (revoke_request access cfg)))

  unfoldable pub reconcile_delete : Action BucketAccess (Unit {0})
  reconcile_delete = do
    modify revoking_status
    on_error (wrapf "failed to update BucketAccess status before deletion: %w" [])
        (update_access_status env)
    delete_owned_access_secrets env
    access ← object
    when (not (access.status.account_id == "")) driver_revoke_access
    modify cleaned_up
    on_error (wrapf "failed to update BucketAccess after successful access revocation: %w" [])
        (update_access env)

  module _ (info : DriverInfo) where
    unfoldable pub reconcile_access : Action BucketAccess (Unit {0})
    reconcile_access = do
      access ← object
      branch (not (access.status.driver_name == info.name)) (pure tt)
          (branch (is_deleting access.metadata) reconcile_delete provision_access)

    -- What `Reconcile` does with the BucketAccess that it found.
    unfoldable pub manage_access : Action BucketAccess (Unit {0})
    manage_access = do
      access ← object
      branch (not (managed_by_sidecar access)) (pure tt)
          (on_error (wrapf "COSI Sidecar error: %w" []) reconcile_access)

    -- `Reconcile`, with the request's namespace and name.
    unfoldable pub manage_access_request : String → String → History → Outcome × History
    manage_access_request namespace name h =
        let r = env.on_get_bucket_access h namespace name in
        reconcile_found (access_reporter env) env manage_access r
          (get_bucket_access namespace name r ∷ h)
