-- ===== src/Tests/Outcomes.antt =====
-- What becomes of an error of the two reconcilers of Buckets and of BucketClaims.
use container_object_storage.Prelude.{◌≡◌, ◌≢◌, refl, some, [], ◌∷◌, contains}
use container_object_storage.Errors.{Error, errorf, non_retryable_error, ok, err}
use container_object_storage.Api.Bucket.{Bucket}
use container_object_storage.Driver.{DriverInfo}
use container_object_storage.World.{
  Env, get_bucket, get_bucket_claim, update_bucket_status, update_bucket_claim_status,
}
use container_object_storage.World.Action.{start, ◌>>=◌}
use container_object_storage.World.Report.Laws.{IsRecorded}
use container_object_storage.SidecarBucket.{
  update, set_finalizers, cleanup, provisioning, reconcile, reconcile_request,
}
use container_object_storage.SidecarBucket.Outcomes as bucket
use container_object_storage.ClaimController.Binding.{
  bucket_name_of, determine_bucket_name, bucket_is_bound_to_claim,
}
use container_object_storage.ClaimController.{
  update_claim, update_claim_status, protect_claim, use_found, bind_bucket, bind_claim,
  has_no_protocols, report_bucket, bind, reconcile_delete, reconcile_claim,
}
use container_object_storage.ClaimController.Request.{reconcile_claim_request}
use container_object_storage.ClaimController.Outcomes as claim
use container_object_storage.Sample.{
  sample_env, sample_bucket, sample_claim, sample_meta, sample_runtime, sample_runtime-IsLawful,
}

abbrev info : DriverInfo
info = record { name = "s3.example.com"; supported_protocols = 1 ∷ [] }

abbrev deleted_bucket : Bucket
deleted_bucket = record sample_bucket {
  metadata = record sample_meta { deletion_timestamp = some 9 };
}

abbrev deleted_env : Env
deleted_env = record sample_env { on_get_bucket = λ h name. ok deleted_bucket }

abbrev not_implemented : Error
not_implemented = non_retryable_error (errorf "deletion is not yet implemented" [])

reconcile_fails :
    (reconcile deleted_env info
      (record { object = deleted_bucket; history = get_bucket "bc-42" (ok deleted_bucket) ∷ [] })).0
    ≡ err not_implemented
unfolding reconcile provisioning cleanup set_finalizers update ◌>>=◌ sample_runtime
reconcile_fails = refl

reconcile_request-IsRecorded_example :
    IsRecorded update_bucket_status
      (bucket.HasError deleted_env)
      not_implemented
      (reconcile_request deleted_env info "bc-42" []).0
      (reconcile_request deleted_env info "bc-42" []).1
reconcile_request-IsRecorded_example =
    bucket.reconcile_request-IsRecorded deleted_env info "bc-42" [] deleted_bucket not_implemented
      refl reconcile_fails

deletion-IsUnprotected_example :
    ((reconcile deleted_env info (start deleted_bucket)).0 ≢ ok tt)
    × bucket.IsUnprotected deleted_env sample_runtime-IsLawful deleted_bucket
        (reconcile deleted_env info (start deleted_bucket)).1.history
deletion-IsUnprotected_example =
    bucket.deletion-IsUnprotected deleted_env sample_runtime-IsLawful deleted_bucket info refl refl

abbrev not_provisioned : Error
not_provisioned = errorf "waiting for Bucket to be provisioned" []

reconcile_claim_fails :
    (reconcile_claim sample_env (record {
      object = sample_claim;
      history = get_bucket_claim "apps" "photos" (ok sample_claim) ∷ [];
    })).0
    ≡ err not_provisioned
unfolding reconcile_claim bind protect_claim use_found bind_bucket bind_claim report_bucket
    has_no_protocols update_claim update_claim_status determine_bucket_name bucket_name_of
    bucket_is_bound_to_claim ◌>>=◌ sample_runtime contains reconcile_delete
reconcile_claim_fails = refl

reconcile_claim_request-IsRecorded_example :
    IsRecorded update_bucket_claim_status
      (claim.HasError sample_env)
      not_provisioned
      (reconcile_claim_request sample_env "apps" "photos" []).0
      (reconcile_claim_request sample_env "apps" "photos" []).1
reconcile_claim_request-IsRecorded_example =
    claim.reconcile_claim_request-IsRecorded sample_env "apps" "photos" [] sample_claim
      not_provisioned refl reconcile_claim_fails
