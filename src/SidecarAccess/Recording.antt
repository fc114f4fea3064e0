-- ===== src/SidecarAccess/Recording.antt =====
-- sidecar/pkg/reconciler/bucketaccess.go: what becomes of an error of `reconcile`.
use container_object_storage.Prelude.{◌≡◌, refl, String, true, ◌∷◌, []}
use container_object_storage.Errors.{Error, wrapf, ok, err}
use container_object_storage.Api.Access.{BucketAccess}
use container_object_storage.Driver.{DriverInfo}
use container_object_storage.Ownership.{managed_by_sidecar}
use container_object_storage.World.{Env, History, get_bucket_access, update_bucket_access_status}
use container_object_storage.World.Action.{State, ◌>>=◌}
use container_object_storage.World.Report.Laws.{IsRecorded}
use container_object_storage.World.Accesses.Recording.{HasError, reconcile_access_found-IsRecorded}
use container_object_storage.SidecarAccess.{reconcile_access, manage_access, manage_access_request}

module _ (env : Env) (info : DriverInfo) where
  manage_access-wraps :
      (s : State BucketAccess) (e : Error)
      → managed_by_sidecar s.object ≡ true
      → (reconcile_access env info s).0 ≡ err e
      → (manage_access env info s).0 ≡ err (wrapf "COSI Sidecar error: %w" [] e)
  unfolding manage_access ◌>>=◌
  manage_access-wraps s e m p = rw m (rw p refl)

  -- When `reconcile` fails on a BucketAccess that was read and that the Sidecar manages, the latest call
  -- of `Reconcile` sends the BucketAccess with the error, marked as the Sidecar's, in its status; the
  -- outcome is a terminal error exactly when this call succeeded and the error wraps a non-retryable
  -- one, and is otherwise an error to be retried.
  pub manage_access_request-IsRecorded :
      (namespace name : String) (h : History) (a : BucketAccess) (e : Error)
      → env.on_get_bucket_access h namespace name ≡ ok a
      → managed_by_sidecar a ≡ true
      → (reconcile_access env info
          (record { object = a; history = get_bucket_access namespace name (ok a) ∷ h })).0
        ≡ err e
      → IsRecorded update_bucket_access_status
          (HasError env)
          (wrapf "COSI Sidecar error: %w" [] e)
          (manage_access_request env info namespace name h).0
          (manage_access_request env info namespace name h).1
  unfolding manage_access_request
  manage_access_request-IsRecorded namespace name h a e p m q = rw p (
      reconcile_access_found-IsRecorded env (manage_access env info) a
        (get_bucket_access namespace name (ok a) ∷ h) (wrapf "COSI Sidecar error: %w" [] e)
        (manage_access-wraps
          (record { object = a; history = get_bucket_access namespace name (ok a) ∷ h }) e m q))
