-- ===== src/Tests/Handovers.antt =====
-- The reconciler of BucketAccesses in the Controller.
use container_object_storage.Prelude.{
  ◌≡◌, ◌∙◌, sym, ap, refl, inl, inr, true, none, some, [], ◌∷◌, dict_get, dict_set, dict_delete,
  contains,
}
use container_object_storage.Errors.{ok, error_of}
use container_object_storage.Api.Bucket.{BucketClaim}
use container_object_storage.Api.Access.{
  BucketAccess, BucketAccessClass, supports_multi_bucket_access,
}
use container_object_storage.Ownership.{sidecar_requirements_present}
use container_object_storage.World.{Env, get_bucket_access_class}
use container_object_storage.World.Recorded.{Recorded}
use container_object_storage.World.Action.{start, ◌>>=◌, range}
use container_object_storage.World.Accesses.{update_access, update_access_status, protect_access}
use container_object_storage.World.Accesses.Protection.{KeepsAccesses, IsSameAccess}
use container_object_storage.AccessController.Validation.{
  validate_all_bucket_claim_references_unique, validate_access_against_class, count_reference,
  count_references, disallowed_modes,
}
use container_object_storage.AccessController.Marks.{
  collect_claim, get_claim, get_all_bucket_claims, collect_marked, mark_claim,
  mark_all_bucket_claims_as_accessed, collect_unmarked, unmark_claim,
  unmark_unaccessed_bucket_claims, has_reference, has_bucket_access_references,
}
use container_object_storage.AccessController.Lookup.{
  collect_bucket, get_bucket_for_claim, get_buckets_for_claims, missing_bucket,
  cannot_access_bucket_claims, waiting_on_bucket_claims, compile_accessed_buckets, message_if,
  blockers_of, wait_for_bucket, wait_for_claim, compile_bucket, and_then, compile_buckets, compiled,
}
use container_object_storage.AccessController.{
  already_initialized, invalid_for_class, blocked, waiting, hand_over, initialize, finalize,
  reconcile_access,
}
use container_object_storage.AccessController.Evidence.{IsHandedOver, IsTidy}
use container_object_storage.AccessController.Living.{
  reconcile_access-IsHandedOver, reconcile_access-IsTidy,
}
use container_object_storage.AccessController.Handoff.{
  HasRequirements, HasValidClasses, reconcile_access-HasRequirements,
}
use container_object_storage.AccessController.Deletion.{IsCautious, IsFinalized}
use container_object_storage.AccessController.Finalization.{
  reconcile_access-IsCautious, reconcile_access-IsFinalized,
}
use container_object_storage.Sample.{
  sample_env, sample_bucket, sample_claim, sample_meta, sample_access, sample_access_class,
  sample_runtime, sample_runtime-IsLawful,
}

-- The claim, bound to its Bucket, which is provisioned.
abbrev ready_claim : BucketClaim
ready_claim = record sample_claim {
  status = record {
    bound_bucket_name = "bc-42";
    ready_to_use = some true;
    protocols = "S3" ∷ [];
    error = none;
  };
}

abbrev ready_env : Env
ready_env = record sample_env {
  on_get_bucket_claim = λ h namespace name. ok ready_claim;
  on_get_bucket = λ h name. ok (record sample_bucket {
    status = record sample_bucket.status { bucket_id = "backend-7"; ready_to_use = some true };
  });
}

-- The claim with the mark of the BucketAccess, which is being deleted.
abbrev marked_env : Env
marked_env = record sample_env {
  on_get_bucket_claim = λ h namespace name. ok (record ready_claim {
    metadata = record sample_meta {
      annotations = ("objectstorage.k8s.io/has-bucketaccess-references", "") ∷ [];
    };
  });
}

abbrev deleted_access : BucketAccess
deleted_access = record sample_access {
  metadata = record sample_access.metadata {
    deletion_timestamp = some 9;
    finalizers = "objectstorage.k8s.io/protection" ∷ [];
  };
}

same_access : {a b : BucketAccess} → ok a ≡ ok b → IsSameAccess a b × (a.status ≡ b.status)
same_access {a} {b} e =
    let p : a ≡ b = cc in
    rw (← p)
      (record { same_namespace = refl; same_name = refl; same_uid = refl; same_spec = refl }, refl)

keeps : KeepsAccesses ready_env
keeps = record { on_object = λ h a b e. same_access e; on_status = λ h a b e. same_access e }

handover_succeeds : (reconcile_access ready_env (start sample_access)).0 ≡ ok tt
unfolding reconcile_access initialize hand_over protect_access update_access update_access_status
    get_all_bucket_claims get_claim collect_claim mark_all_bucket_claims_as_accessed mark_claim
    collect_marked get_buckets_for_claims get_bucket_for_claim collect_bucket missing_bucket
    cannot_access_bucket_claims waiting_on_bucket_claims compile_accessed_buckets blocked waiting
    invalid_for_class already_initialized sidecar_requirements_present
    validate_all_bucket_claim_references_unique validate_access_against_class range ◌>>=◌ error_of
    sample_runtime contains dict_get dict_set count_reference count_references disallowed_modes
    supports_multi_bucket_access message_if blockers_of wait_for_bucket wait_for_claim
    compile_bucket and_then compile_buckets compiled
handover_succeeds = refl

reconcile_access-IsHandedOver_example :
    IsHandedOver sample_access (reconcile_access ready_env (start sample_access)).1.history
reconcile_access-IsHandedOver_example =
    reconcile_access-IsHandedOver ready_env sample_access sample_runtime-IsLawful keeps refl
      handover_succeeds

reconcile_access-IsTidy_example :
    IsTidy sample_access ready_env (reconcile_access ready_env (start sample_access)).1.history
reconcile_access-IsTidy_example =
    reconcile_access-IsTidy ready_env sample_access sample_runtime-IsLawful keeps refl

class_is_valid :
    (c : BucketAccessClass)
    → Recorded
        (get_bucket_access_class "keys" (ok c))
        (reconcile_access ready_env (start sample_access)).1.history
    → c ≡ sample_access_class
unfolding reconcile_access initialize hand_over protect_access update_access update_access_status
    get_all_bucket_claims get_claim collect_claim mark_all_bucket_claims_as_accessed mark_claim
    collect_marked get_buckets_for_claims get_bucket_for_claim collect_bucket missing_bucket
    cannot_access_bucket_claims waiting_on_bucket_claims compile_accessed_buckets blocked waiting
    invalid_for_class already_initialized sidecar_requirements_present
    validate_all_bucket_claim_references_unique validate_access_against_class range ◌>>=◌ error_of
    sample_runtime contains dict_get dict_set count_reference count_references disallowed_modes
    supports_multi_bucket_access message_if blockers_of wait_for_bucket wait_for_claim
    compile_bucket and_then compile_buckets compiled
class_is_valid c (inl e) = cc
class_is_valid c (inr (inl e)) = cc
class_is_valid c (inr (inr (inl e))) = cc
class_is_valid c (inr (inr (inr (inl e)))) = cc
class_is_valid c (inr (inr (inr (inr (inl e))))) = cc
class_is_valid c (inr (inr (inr (inr (inr (inl e)))))) = cc
class_is_valid c (inr (inr (inr (inr (inr (inr e)))))) = absurd e

valid : HasValidClasses sample_access (reconcile_access ready_env (start sample_access)).1.history
valid c p =
    let e = class_is_valid c p in
    (
      (λ z. let q : "s3.example.com" ≡ "" = ap (λ k. k.spec.driver_name) (sym e) ∙ z in cc),
      (λ z. let q : "Key" ≡ "" = ap (λ k. k.spec.authentication_type) (sym e) ∙ z in cc),
    )

reconcile_access-HasRequirements_example :
    HasRequirements (reconcile_access ready_env (start sample_access)).1.history
reconcile_access-HasRequirements_example =
    reconcile_access-HasRequirements ready_env sample_access sample_runtime-IsLawful keeps refl
      (λ e. cc) valid handover_succeeds

finalization_succeeds : (reconcile_access marked_env (start deleted_access)).0 ≡ ok tt
unfolding reconcile_access finalize update_access get_all_bucket_claims get_claim collect_claim
    unmark_unaccessed_bucket_claims unmark_claim collect_unmarked has_bucket_access_references
    has_reference range ◌>>=◌ error_of sample_runtime contains dict_get dict_set dict_delete
finalization_succeeds = refl

reconcile_access-IsCautious_example :
    IsCautious marked_env deleted_access
      (reconcile_access marked_env (start deleted_access)).1.history
reconcile_access-IsCautious_example = reconcile_access-IsCautious marked_env deleted_access refl

reconcile_access-IsFinalized_example :
    IsFinalized marked_env deleted_access
      (reconcile_access marked_env (start deleted_access)).1.history
reconcile_access-IsFinalized_example =
    reconcile_access-IsFinalized marked_env deleted_access refl finalization_succeeds
