-- ===== src/Tests/Claims.antt =====
-- The reconciler of BucketClaims in the Controller.
use container_object_storage.Prelude.{
  ◌≡◌, refl, String, ◌↔◌, true, false, some, [], ◌∷◌, contains, dict_set,
}
use container_object_storage.Errors.{ok}
use container_object_storage.Api.Bucket.{Bucket, BucketClaim}
use container_object_storage.World.{Env}
use container_object_storage.World.Action.{start, ◌>>=◌}
use container_object_storage.ClaimController.Binding.{
  bucket_name_of, determine_bucket_name, bucket_is_bound_to_claim,
}
use container_object_storage.ClaimController.{
  update_claim, update_claim_status, protect_claim, use_found, bind_bucket, bind_claim,
  has_no_protocols, report_bucket, bind, remove_claim_finalizer, release, release_bucket,
  release_found, apply_bucket_claim_is_deleting_annotation, reconcile_delete, reconcile_claim,
}
use container_object_storage.ClaimController.Bound.{
  BelongsTo, IsReservedFor, IsSameClaim, KeepsClaims, IsSameClaim-refl,
  bucket_is_bound_to_claim_cases,
}
use container_object_storage.ClaimController.Cautious.{IsCautious, IsBoundTo}
use container_object_storage.ClaimController.Run.{
  reconcile_claim-IsCautious, reconcile_claim-IsBoundTo,
}
use container_object_storage.ClaimController.Release.{IsGuarded, IsReleased}
use container_object_storage.ClaimController.Deletion.{
  reconcile_claim-IsGuarded, reconcile_claim-IsReleased,
}
use container_object_storage.Sample.{
  sample_env, sample_bucket, sample_claim, sample_meta, sample_runtime, sample_runtime-IsLawful,
}

-- The Bucket of the claim, after the Sidecar provisioned it.
abbrev provisioned_bucket : Bucket
provisioned_bucket = record sample_bucket {
  status = record sample_bucket.status {
    ready_to_use = some true;
    bucket_id = "backend-7";
    protocols = "S3" ∷ [];
  };
}

abbrev provisioned_env : Env
provisioned_env = record sample_env { on_get_bucket = λ h name. ok provisioned_bucket }

abbrev deleted_claim : BucketClaim
deleted_claim = record sample_claim {
  metadata = record sample_meta { deletion_timestamp = some 9 };
}

uid_set : sample_claim.metadata.uid ≡ "" → ⊥
uid_set h = cc

same_claim :
    {c d : BucketClaim}
    → ok c ≡ ok d
    → IsSameClaim c d × (c.status.bound_bucket_name ≡ d.status.bound_bucket_name)
same_claim {c} {d} e = let p : c ≡ d = cc in rw (← p) (IsSameClaim-refl c, refl)

keeps : KeepsClaims provisioned_env
keeps = record { on_status = λ h c d e. same_claim e; on_object = λ h c d e. same_claim e }

reconcile_claim_succeeds : (reconcile_claim provisioned_env (start sample_claim)).0 ≡ ok tt
unfolding reconcile_claim bind protect_claim use_found bind_bucket bind_claim report_bucket
    has_no_protocols update_claim update_claim_status determine_bucket_name bucket_name_of
    bucket_is_bound_to_claim ◌>>=◌ sample_runtime contains
reconcile_claim_succeeds = refl

reconcile_claim-IsBoundTo_example :
    (n : String) × (determine_bucket_name sample_claim ≡ ok n)
    × IsBoundTo provisioned_env sample_claim n
        (reconcile_claim provisioned_env (start sample_claim)).1.history
reconcile_claim-IsBoundTo_example =
    reconcile_claim-IsBoundTo provisioned_env sample_claim keeps sample_runtime-IsLawful uid_set
      refl reconcile_claim_succeeds

reconcile_claim-IsCautious_example :
    IsCautious provisioned_env sample_claim
      (reconcile_claim provisioned_env (start sample_claim)).1.history
reconcile_claim-IsCautious_example =
    reconcile_claim-IsCautious provisioned_env sample_claim keeps sample_runtime-IsLawful uid_set
      refl

reconcile_delete_succeeds : (reconcile_claim provisioned_env (start deleted_claim)).0 ≡ ok tt
unfolding reconcile_claim reconcile_delete release_found release release_bucket
    apply_bucket_claim_is_deleting_annotation remove_claim_finalizer update_claim
    update_claim_status determine_bucket_name bucket_name_of bucket_is_bound_to_claim ◌>>=◌
    sample_runtime dict_set
reconcile_delete_succeeds = refl

reconcile_claim-IsGuarded_example :
    IsGuarded provisioned_env deleted_claim
      (reconcile_claim provisioned_env (start deleted_claim)).1.history
reconcile_claim-IsGuarded_example =
    reconcile_claim-IsGuarded provisioned_env deleted_claim sample_runtime-IsLawful keeps refl

reconcile_claim-IsReleased_example :
    IsReleased provisioned_env deleted_claim
      (reconcile_claim provisioned_env (start deleted_claim)).1.history
reconcile_claim-IsReleased_example =
    reconcile_claim-IsReleased provisioned_env deleted_claim sample_runtime-IsLawful keeps refl
      reconcile_delete_succeeds

bucket_is_bound_to_claim_cases_example :
    ((bucket_is_bound_to_claim sample_bucket sample_claim ≡ ok true)
      ↔ BelongsTo sample_bucket sample_claim)
    × ((bucket_is_bound_to_claim sample_bucket sample_claim ≡ ok false)
        ↔ IsReservedFor sample_bucket sample_claim)
bucket_is_bound_to_claim_cases_example = bucket_is_bound_to_claim_cases sample_bucket sample_claim
