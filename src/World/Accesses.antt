-- ===== src/World/Accesses.antt =====
-- What the reconcilers of BucketAccesses in controller/pkg/reconciler/bucketaccess.go and in
-- sidecar/pkg/reconciler/bucketaccess.go do in the same words.
pub mod Protection
pub mod Recording
pub mod Handover
pub mod Steady
use container_object_storage.Prelude.{
  String, Bool, false, Option, none, some, List, [], ◌∷◌, deref, if◌then◌else◌,
}
use container_object_storage.Errors.{Error, wrapf, Result}
use container_object_storage.Api.Meta.{new_timestamped_error, protection_finalizer}
use container_object_storage.Api.Access.{BucketAccess}
use container_object_storage.World.{Env, History, update_bucket_access, update_bucket_access_status}
use container_object_storage.World.Action.{
  Action, ◌>>=◌, ◌>>◌, pure, call, on_error, object, modify, set_object, when,
}
use container_object_storage.World.Report.{Reporter}

module _ (env : Env) where
  -- r.Update(ctx, access)
  unfoldable pub update_access : Action BucketAccess (Unit {0})
  update_access = do
    access ← object
    stored ← call (update_bucket_access access) (λ h. env.on_update_bucket_access h access)
    set_object stored

  -- r.Status().Update(ctx, access)
  unfoldable pub update_access_status : Action BucketAccess (Unit {0})
  update_access_status = do
    access ← object
    stored ←
        call (update_bucket_access_status access) (λ h. env.on_update_bucket_access_status h access)
    set_object stored

  -- ctrlutil.AddFinalizer, and the update where it changed something.
  unfoldable pub protect_access : Action BucketAccess (Unit {0})
  protect_access = do
    access ← object
    let added = env.runtime.add_finalizer access.metadata.finalizers protection_finalizer
    modify (λ a. record a { metadata = record a.metadata { finalizers = added.0 } })
    when added.1 (on_error (wrapf "failed to add protection finalizer: %w" []) update_access)

  -- What `Reconcile` does with the status; an error in it is never cleared there.
  unfoldable pub access_reporter : Reporter BucketAccess
  access_reporter = record {
    update_status = update_access_status;
    with_error = λ h e a. record a {
      status = record a.status {
        ready_to_use = some (deref a.status.ready_to_use false);
        error = some (new_timestamped_error (env.now h) (env.error_text e));
      };
    };
    must_clear = λ a. false;
    without_error = λ a. a;
  }
