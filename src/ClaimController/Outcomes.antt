-- ===== src/ClaimController/Outcomes.antt =====
-- bucketclaim.go: what becomes of an error of `reconcile`.
use container_object_storage.Prelude.{◌≡◌, ◌≢◌, refl, String, some, none, ◌∷◌}
use container_object_storage.Errors.{Error, ok, err}
use container_object_storage.Api.Meta.{new_timestamped_error}
use container_object_storage.Api.Bucket.{BucketClaim}
use container_object_storage.World.{Env, History, get_bucket_claim, update_bucket_claim_status}
use container_object_storage.World.Report.Laws.{IsRecorded, sending, reconcile_found-IsRecorded}
use container_object_storage.ClaimController.{update_claim_status, reconcile_claim}
use container_object_storage.ClaimController.Request.{claim_reporter, reconcile_claim_request}

module _ (env : Env) where
  -- The status has the error with the time of its recording, and says whether the claim is ready.
  abbrev pub HasError : History → Error → BucketClaim → Type 0
  HasError h e c =
      (c.status.error ≡ some (new_timestamped_error (env.now h) (env.error_text e)))
      × (c.status.ready_to_use ≢ none)

  claim_reporter-sends :
      (claim_reporter env).update_status
      ≡ sending update_bucket_claim_status env.on_update_bucket_claim_status
  unfolding claim_reporter update_claim_status sending
  claim_reporter-sends = refl

  claim_reporter-HasError :
      (h : History) (e : Error) (c : BucketClaim)
      → HasError h e ((claim_reporter env).with_error h e c)
  unfolding claim_reporter
  claim_reporter-HasError h e c = (refl, λ z. cc)

  -- When `reconcile` fails on the claim that was read, the latest call of `Reconcile` sends the
  -- claim with the error in its status; the outcome is a terminal error exactly when this call
  -- succeeded and the error wraps a non-retryable one, and is otherwise an error to be retried.
  pub reconcile_claim_request-IsRecorded :
      (namespace name : String) (h : History) (c : BucketClaim) (e : Error)
      → env.on_get_bucket_claim h namespace name ≡ ok c
      → (reconcile_claim env
          (record { object = c; history = get_bucket_claim namespace name (ok c) ∷ h })).0
        ≡ err e
      → IsRecorded update_bucket_claim_status HasError e
          (reconcile_claim_request env namespace name h).0
          (reconcile_claim_request env namespace name h).1
  unfolding reconcile_claim_request
  reconcile_claim_request-IsRecorded namespace name h c e p q = rw p (
      reconcile_found-IsRecorded update_bucket_claim_status env.on_update_bucket_claim_status
        (claim_reporter env) claim_reporter-sends HasError claim_reporter-HasError env
        (reconcile_claim env) c (get_bucket_claim namespace name (ok c) ∷ h) e q)
