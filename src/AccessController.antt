-- ===== src/AccessController.antt =====
-- controller/pkg/reconciler/bucketaccess.go: the reconciler of BucketAccesses in the Controller.
pub mod Validation
pub mod Laws
pub mod Recording
pub mod Steadiness
pub mod Marks
pub mod References
pub mod Lookup
pub mod Evidence
pub mod Gather
pub mod Marking
pub mod Finding
pub mod Ready
pub mod Handover
pub mod Living
pub mod Handoff
pub mod Deletion
pub mod Finalization
use container_object_storage.Prelude.{
  String, Bool, true, false, Option, none, some, List, [], ◌∷◌, deref, is_empty, not, if◌then◌else◌,
}
use container_object_storage.Errors.{Error, Arg, errorf, wrapf, non_retryable_error, Result}
use container_object_storage.Api.Meta.{protection_finalizer, is_deleting}
use container_object_storage.Api.Access.{BucketAccess, BucketAccessClass, AccessedBucket}
use container_object_storage.Ownership.{managed_by_sidecar, sidecar_requirements_present}
use container_object_storage.World.{
  Env, History, Outcome, get_bucket_access, list_bucket_accesses, get_bucket_access_class,
}
use container_object_storage.World.Action.{
  Action, ◌>>=◌, ◌>>◌, pure, lift, call, on_error, object, modify, check, branch,
}
use container_object_storage.World.Accesses.{
  update_access, update_access_status, protect_access, access_reporter,
}
use container_object_storage.World.Report.{reconcile_found}
use Validation.{validate_all_bucket_claim_references_unique, validate_access_against_class}
use Marks.{
  Claims, get_all_bucket_claims, mark_all_bucket_claims_as_accessed,
  unmark_unaccessed_bucket_claims,
}
use Lookup.{
  get_buckets_for_claims, cannot_access_bucket_claims, waiting_on_bucket_claims,
  compile_accessed_buckets,
}

-- `if initialized { return cosierr.NonRetryableError(…) }`
unfoldable pub already_initialized : Bool → Option Error
already_initialized true = some (
    non_retryable_error
      (errorf "processed a BucketAccess that should be managed by COSI Sidecar" []))
already_initialized false = none

unfoldable pub invalid_for_class : Option Error → Option Error
invalid_for_class none = none
invalid_for_class (some e) = some (non_retryable_error e)

unfoldable pub blocked : List Arg → Option Error
blocked [] = none
blocked (m ∷ ms) = some (
    non_retryable_error
      (errorf "access cannot be provisioned for one or more BucketClaims: %v" (m ∷ ms)))

unfoldable pub waiting : List Arg → Option Error
waiting [] = none
waiting (m ∷ ms) = some (errorf "waiting for prerequisites before provisioning access: %v" (m ∷ ms))

-- The BucketAccess with the fields that hand it over to the Sidecar.
abbrev pub initialized_with : List AccessedBucket → BucketAccessClass → BucketAccess → BucketAccess
initialized_with accessed class access = record access {
  status = record access.status {
    ready_to_use = some (deref access.status.ready_to_use false);
    accessed_buckets = accessed;
    driver_name = class.spec.driver_name;
    authentication_type = class.spec.authentication_type;
    parameters = class.spec.parameters;
    error = none;
  };
}

module _ (env : Env) where
  -- From the read of the BucketAccessClass on.
  unfoldable pub hand_over : Claims → Action BucketAccess (Unit {0})
  hand_over claims = do
    access ← object
    class ←
        call (get_bucket_access_class access.spec.bucket_access_class_name)
          (λ h. env.on_get_bucket_access_class h access.spec.bucket_access_class_name)
    check (invalid_for_class (validate_access_against_class class.spec access.spec))
    buckets ← get_buckets_for_claims env claims
    check (blocked (cannot_access_bucket_claims claims access.spec))
    check (waiting (waiting_on_bucket_claims claims buckets))
    accessed ←
        on_error (wrapf "waiting for BucketClaims to finish provisioning: %w" [])
          (lift (compile_accessed_buckets access.spec.bucket_claims buckets))
    modify (initialized_with accessed class)
    update_access_status env

  -- The reconcile of a BucketAccess that is not being deleted.
  unfoldable pub initialize : Action BucketAccess (Unit {0})
  initialize = do
    found ← object
    initialized ←
        on_error (λ e. non_retryable_error (wrapf "processed a degraded BucketAccess: %w" [] e))
          (lift (sidecar_requirements_present found.status))
    check (already_initialized initialized)
    protect_access env
    access ← object
    check (validate_all_bucket_claim_references_unique access.spec.bucket_claims)
    claims ← get_all_bucket_claims env access.metadata.namespace access.spec.bucket_claims
    accessed ← mark_all_bucket_claims_as_accessed env claims
    branch (not (is_empty access.status.accessed_buckets)) (pure tt) (hand_over accessed)

  unfoldable pub finalize : Action BucketAccess (Unit {0})
  finalize = do
    access ← object
    claims ← get_all_bucket_claims env access.metadata.namespace access.spec.bucket_claims
    accesses ←
        call (list_bucket_accesses access.metadata.namespace)
          (λ h. env.on_list_bucket_accesses h access.metadata.namespace)
    unmark_unaccessed_bucket_claims env claims accesses access.metadata.name
    modify (λ a. record a {
      metadata = record a.metadata {
        finalizers = env.runtime.remove_finalizer a.metadata.finalizers protection_finalizer;
      };
    })
    on_error (wrapf "failed to remove finalizer: %w" []) (update_access env)

  unfoldable pub reconcile_access : Action BucketAccess (Unit {0})
  reconcile_access = do access ← object; branch (is_deleting access.metadata) finalize initialize

  -- What `Reconcile` does with the BucketAccess that it found.
  unfoldable pub control_access : Action BucketAccess (Unit {0})
  control_access = do
    access ← object
    branch (managed_by_sidecar access) (pure tt)
        (on_error (wrapf "COSI Controller error: %w" []) reconcile_access)

  -- `Reconcile`, with the request's namespace and name.
  unfoldable pub control_access_request : String → String → History → Outcome × History
  control_access_request namespace name h =
      let r = env.on_get_bucket_access h namespace name in
      reconcile_found (access_reporter env) env control_access r
        (get_bucket_access namespace name r ∷ h)
