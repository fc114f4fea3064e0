-- ===== src/World/Accesses/Recording.antt =====
-- What the reconcilers of BucketAccesses do with an error, in both files named bucketaccess.go.
use container_object_storage.Prelude.{◌≡◌, ◌≢◌, refl, some, none}
use container_object_storage.Errors.{Error, ok, err}
use container_object_storage.Api.Meta.{new_timestamped_error}
use container_object_storage.Api.Access.{BucketAccess}
use container_object_storage.World.{Env, History, update_bucket_access_status}
use container_object_storage.World.Action.{Action}
use container_object_storage.World.Report.Laws.{IsRecorded, sending, reconcile_found-IsRecorded}
use container_object_storage.World.Report.{reconcile_found}
use container_object_storage.World.Accesses.{update_access_status, access_reporter}

module _ (env : Env) where
  -- The status has the error with the time of its recording, and says whether access is ready.
  abbrev pub HasError : History → Error → BucketAccess → Type 0
  HasError h e a =
      (a.status.error ≡ some (new_timestamped_error (env.now h) (env.error_text e)))
      × (a.status.ready_to_use ≢ none)

  access_reporter-sends :
      (access_reporter env).update_status
      ≡ sending update_bucket_access_status env.on_update_bucket_access_status
  unfolding access_reporter update_access_status sending
  access_reporter-sends = refl

  access_reporter-HasError :
      (h : History) (e : Error) (a : BucketAccess)
      → HasError h e ((access_reporter env).with_error h e a)
  unfolding access_reporter
  access_reporter-HasError h e a = (refl, λ z. cc)

  pub reconcile_access_found-IsRecorded :
      (reconcile : Action BucketAccess (Unit {0})) (a : BucketAccess) (h : History) (e : Error)
      → (reconcile (record { object = a; history = h })).0 ≡ err e
      → IsRecorded update_bucket_access_status HasError e
          (reconcile_found (access_reporter env) env reconcile (ok a) h).0
          (reconcile_found (access_reporter env) env reconcile (ok a) h).1
  reconcile_access_found-IsRecorded reconcile a h e p =
      reconcile_found-IsRecorded update_bucket_access_status env.on_update_bucket_access_status
        (access_reporter env) access_reporter-sends HasError access_reporter-HasError env reconcile
        a h e p
