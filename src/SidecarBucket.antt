-- ===== src/SidecarBucket.antt =====
-- sidecar/pkg/reconciler/bucket.go: the reconciler of Buckets in the Sidecar.
pub mod Provision
pub mod Protection
pub mod Readiness
pub mod Outcomes
use container_object_storage.Prelude.{
  ℕ, ◌&&◌, String, Bool, true, false, not, Option, none, some, List, [], ◌∷◌, ◌==◌, is_empty,
  is_some, deref, if◌then◌else◌,
}
use container_object_storage.Errors.{
  Error, errorf, wrapf, non_retryable_error, is_non_retryable, Result, ok, err,
}
use container_object_storage.Api.Meta.{
  ObjectMeta, TimestampedError, new_timestamped_error, protection_finalizer, is_deleting,
}
use container_object_storage.Api.Bucket.{Bucket, BucketStatus}
use container_object_storage.Driver.{DriverInfo}
use container_object_storage.World.{
  Env, History, Call, Outcome, success, retry, terminal, get_bucket, update_bucket,
  update_bucket_status,
}
use container_object_storage.World.Action.{
  branch, State, start, Action, ◌>>=◌, ◌>>◌, pure, fail, lift, call, on_error, map_error, object,
  modify, set_object, check, when,
}
use container_object_storage.World.Report.{Reporter, reconcile_found}
use Provision.{
  ProvisionedBucketDetails, object_protocol_list_from_api_list, validate_driver_supports_protocols,
  validate_bucket_supports_protocols, dynamic_provision, static_provision,
}

-- The error of a check, marked as not to be retried.
abbrev pub non_retryable_option : Option Error → Option Error
non_retryable_option none = none
non_retryable_option (some e) = some (non_retryable_error e)

abbrev pub ready_status : ProvisionedBucketDetails → BucketStatus
ready_status p = record {
  ready_to_use = some true;
  bucket_id = p.bucket_id;
  protocols = p.supported_protos;
  bucket_info = p.all_proto_bucket_info;
  error = none;
}

wrap_missing : Option Error → Option Error
wrap_missing none = none
wrap_missing (some e) =
    some (non_retryable_error (wrapf "bucket required protocols missing: %w" [] e))

-- `if len(supportedProtos) == 0` and the validation after it.
unfoldable pub missing_protocols : ProvisionedBucketDetails → Bucket → Option Error
unfolding wrap_missing
missing_protocols p b =
    if is_empty p.supported_protos
    then some (non_retryable_error (errorf "created bucket supports no protocols" []))
    else wrap_missing (validate_bucket_supports_protocols p.supported_protos b.spec.protocols)

module _ (env : Env) where
  -- r.Update(ctx, bucket): the object becomes what the server stored; on an error it stays.
  unfoldable pub update : Action Bucket (Unit {0})
  update = do
    bucket ← object
    stored ← call (update_bucket bucket) (λ h. env.on_update_bucket h bucket)
    set_object stored

  -- r.Status().Update(ctx, bucket)
  unfoldable pub update_status : Action Bucket (Unit {0})
  update_status = do
    bucket ← object
    stored ← call (update_bucket_status bucket) (λ h. env.on_update_bucket_status h bucket)
    set_object stored

  -- What `Reconcile` does with the status of a Bucket.
  unfoldable pub bucket_reporter : Reporter Bucket
  bucket_reporter = record {
    update_status = update_status;
    with_error = λ h e b. record b {
      status = record b.status {
        ready_to_use = some (deref b.status.ready_to_use false);
        error = some (new_timestamped_error (env.now h) (env.error_text e));
      };
    };
    must_clear = λ b. is_some b.status.error && is_deleting b.metadata;
    without_error = λ b. record b {
      status = record b.status {
        ready_to_use = some (deref b.status.ready_to_use false);
        error = none;
      };
    };
  }

  unfoldable pub set_finalizers : List String → Action Bucket (Unit {0})
  set_finalizers fs = modify (λ b. record b { metadata = record b.metadata { finalizers = fs } })

  unfoldable pub cleanup : Action Bucket (Unit {0})
  cleanup = do
    bucket ← object
    set_finalizers (env.runtime.remove_finalizer bucket.metadata.finalizers protection_finalizer)
    on_error (wrapf "failed to remove finalizer: %w" []) update
    fail (non_retryable_error (errorf "deletion is not yet implemented" []))

  -- ctrlutil.AddFinalizer, and the update where it changed something.
  unfoldable pub protect : Action Bucket (Unit {0})
  protect = do
    bucket ← object
    let added = env.runtime.add_finalizer bucket.metadata.finalizers protection_finalizer
    set_finalizers added.0
    when added.1 (on_error (wrapf "failed to add protection finalizer: %w" []) update)

  -- `is_static` was read before the finalizer was added; the rest is read from the object now.
  unfoldable pub provision : Bool → List ℕ → Action Bucket ProvisionedBucketDetails
  provision is_static required_protos = do
    bucket ← object
    branch is_static
        (static_provision env (record {
          existing_bucket_id = bucket.spec.existing_bucket_id;
          required_protos = required_protos;
          parameters = bucket.spec.parameters;
          claim_ref = bucket.spec.bucket_claim_ref;
        }))
        (dynamic_provision env (record {
          bucket_name = bucket.metadata.name;
          required_protos = required_protos;
          parameters = bucket.spec.parameters;
          claim_ref = bucket.spec.bucket_claim_ref;
        }))

  -- The final validation and the status update.
  unfoldable pub finish : ProvisionedBucketDetails → Action Bucket (Unit {0})
  finish provisioned = do
    bucket ← object
    check (missing_protocols provisioned bucket)
    modify (λ b. record b { status = ready_status provisioned })
    on_error (wrapf "failed to update Bucket status after successful bucket creation: %w" [])
        update_status

  module _ (info : DriverInfo) where
    unfoldable pub provisioning : Action Bucket (Unit {0})
    provisioning = do
      bucket ← object
      required_protos ←
          on_error non_retryable_error
            (lift (object_protocol_list_from_api_list bucket.spec.protocols))
      check (non_retryable_option (validate_driver_supports_protocols info required_protos))
      protect
      provisioned ← provision (not (bucket.spec.existing_bucket_id == "")) required_protos
      finish provisioned

    unfoldable pub reconcile : Action Bucket (Unit {0})
    reconcile = do
      bucket ← object
      branch (not (bucket.spec.driver_name == info.name)) (pure tt)
          (branch (is_deleting bucket.metadata) cleanup provisioning)

    -- `Reconcile`, with the request's name.
    unfoldable pub reconcile_request : String → History → Outcome × History
    unfolding reconcile_found bucket_reporter
    reconcile_request name h =
        let r = env.on_get_bucket h name in
        reconcile_found bucket_reporter env reconcile r (get_bucket name r ∷ h)
