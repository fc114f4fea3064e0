-- ===== src/AccessController/Recording.antt =====
-- controller/pkg/reconciler/bucketaccess.go: what becomes of an error of `reconcile`.
use container_object_storage.Prelude.{◌≡◌, refl, String, false, ◌∷◌, []}
use container_object_storage.Errors.{Error, wrapf, ok, err}
use container_object_storage.Api.Access.{BucketAccess}
use container_object_storage.Ownership.{managed_by_sidecar}
use container_object_storage.World.{Env, History, get_bucket_access, update_bucket_access_status}
use container_object_storage.World.Action.{State, ◌>>=◌}
use container_object_storage.World.Report.Laws.{IsRecorded}
use container_object_storage.World.Accesses.Recording.{HasError, reconcile_access_found-IsRecorded}
use container_object_storage.AccessController.{
  reconcile_access, control_access, control_access_request,
}

module _ (env : Env) where
  control_access-wraps :
      (s : State BucketAccess) (e : Error)
      → managed_by_sidecar s.object ≡ false
      → (reconcile_access env s).0 ≡ err e
      → (control_access env s).0 ≡ err (wrapf "COSI Controller error: %w" [] e)
  unfolding control_access ◌>>=◌
  control_access-wraps s e m p = rw m (rw p refl)

  -- When `reconcile` fails on a BucketAccess that was read and that the Sidecar does not manage, the latest call
  -- of `Reconcile` sends the BucketAccess with the error, marked as the Controller's, in its status; the
  -- outcome is a terminal error exactly when this call succeeded and the error wraps a non-retryable
  -- one, and is otherwise an error to be retried.
  pub control_access_request-IsRecorded :
      (namespace name : String) (h : History) (a : BucketAccess) (e : Error)
      → env.on_get_bucket_access h namespace name ≡ ok a
      → managed_by_sidecar a ≡ false
      → (reconcile_access env
          (record { object = a; history = get_bucket_access namespace name (ok a) ∷ h })).0
        ≡ err e
      → IsRecorded update_bucket_access_status
          (HasError env)
          (wrapf "COSI Controller error: %w" [] e)
          (control_access_request env namespace name h).0
          (control_access_request env namespace name h).1
  unfolding control_access_request
  control_access_request-IsRecorded namespace name h a e p m q = rw p (
      reconcile_access_found-IsRecorded env (control_access env) a
        (get_bucket_access namespace name (ok a) ∷ h) (wrapf "COSI Controller error: %w" [] e)
        (control_access-wraps
          (record { object = a; history = get_bucket_access namespace name (ok a) ∷ h }) e m q))
