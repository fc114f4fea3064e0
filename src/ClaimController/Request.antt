-- ===== src/ClaimController/Request.antt =====
-- bucketclaim.go: `Reconcile` of the reconciler of BucketClaims.
use container_object_storage.Prelude.{String, ◌&&◌, false, some, none, ◌∷◌, deref, is_some}
use container_object_storage.Api.Meta.{new_timestamped_error, is_deleting}
use container_object_storage.Api.Bucket.{BucketClaim}
use container_object_storage.World.{Env, History, Outcome, get_bucket_claim}
use container_object_storage.World.Report.{Reporter, reconcile_found}
use container_object_storage.ClaimController.{update_claim_status, reconcile_claim}

module _ (env : Env) where
  -- What `Reconcile` does with the status of a claim.
  unfoldable pub claim_reporter : Reporter BucketClaim
  claim_reporter = record {
    update_status = update_claim_status env;
    with_error = λ h e c. record c {
      status = record c.status {
        ready_to_use = some (deref c.status.ready_to_use false);
        error = some (new_timestamped_error (env.now h) (env.error_text e));
      };
    };
    must_clear = λ c. is_some c.status.error && is_deleting c.metadata;
    without_error = λ c. record c {
      status = record c.status {
        ready_to_use = some (deref c.status.ready_to_use false);
        error = none;
      };
    };
  }

  -- `Reconcile`, with the request's namespace and name.
  unfoldable pub reconcile_claim_request : String → String → History → Outcome × History
  unfolding claim_reporter
  reconcile_claim_request namespace name h =
      let r = env.on_get_bucket_claim h namespace name in
      reconcile_found claim_reporter env (reconcile_claim env) r
        (get_bucket_claim namespace name r ∷ h)
