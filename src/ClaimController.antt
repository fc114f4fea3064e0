-- ===== src/ClaimController.antt =====
-- controller/pkg/reconciler/bucketclaim.go: the reconciler of BucketClaims in the Controller.
pub mod Binding
pub mod Bound
pub mod Cautious
pub mod Living
pub mod Adoption
pub mod Release
pub mod Deletion
pub mod Run
pub mod Request
pub mod Outcomes
use container_object_storage.Prelude.{
  ◌&&◌, String, Bool, true, false, not, Option, none, some, List, [], ◌∷◌, ◌==◌, is_empty, is_some,
  deref, dict_set, if◌then◌else◌,
}
use container_object_storage.Errors.{
  Error, errorf, wrapf, text, non_retryable_error, is_non_retryable, Result, ok, err,
}
use container_object_storage.Api.Meta.{
  new_timestamped_error, protection_finalizer, bucket_claim_being_deleted_annotation, is_deleting,
}
use container_object_storage.Api.Bucket.{retain, delete, Bucket, BucketClaim, BucketClass}
use container_object_storage.World.{
  Env, History, Outcome, success, retry, terminal, get_bucket, create_bucket, update_bucket,
  delete_bucket, get_bucket_claim, update_bucket_claim, update_bucket_claim_status,
  get_bucket_class,
}
use container_object_storage.World.Action.{
  branch, State, Action, ◌>>=◌, ◌>>◌, pure, fail, lift, try, call, on_error, object, modify,
  set_object, check, when,
}
use Binding.{determine_bucket_name, generate_intermediate_bucket, bucket_is_bound_to_claim}

-- The Bucket with the annotation that its claim is being deleted.
abbrev pub annotated : Bucket → Bucket
annotated bucket = record bucket {
  metadata = record bucket.metadata {
    annotations = dict_set bucket.metadata.annotations bucket_claim_being_deleted_annotation "";
  };
}

-- The Bucket with the UID of the claim in its claim reference.
abbrev pub bound_to : String → Bucket → Bucket
bound_to claim_uid bucket = record bucket {
  spec = record bucket.spec {
    bucket_claim_ref = record bucket.spec.bucket_claim_ref { uid = claim_uid };
  };
}

module _ (env : Env) where
  -- r.Update(ctx, claim)
  unfoldable pub update_claim : Action BucketClaim (Unit {0})
  update_claim = do
    claim ← object
    stored ← call (update_bucket_claim claim) (λ h. env.on_update_bucket_claim h claim)
    set_object stored

  -- r.Status().Update(ctx, claim)
  unfoldable pub update_claim_status : Action BucketClaim (Unit {0})
  update_claim_status = do
    claim ← object
    stored ←
        call (update_bucket_claim_status claim) (λ h. env.on_update_bucket_claim_status h claim)
    set_object stored

  -- The Bucket as the server stored it.
  unfoldable pub create_intermediate_bucket : BucketClaim → String → Action BucketClaim Bucket
  create_intermediate_bucket claim bucket_name =
      let class_name = claim.spec.bucket_class_name in
      branch (class_name == "")
        (fail (non_retryable_error (errorf "BucketClaim cannot have empty bucketClassName" [])))
        do
          class ← call (get_bucket_class class_name) (λ h. env.on_get_bucket_class h class_name)
          let bucket = generate_intermediate_bucket claim class bucket_name
          call (create_bucket bucket) (λ h. env.on_create_bucket h bucket)

  -- The Bucket is changed in place; the result is what it is after a success.
  unfoldable pub ensure_static_bucket_bound : Bucket → String → Action BucketClaim Bucket
  ensure_static_bucket_bound bucket claim_uid =
      let claim_ref = bucket.spec.bucket_claim_ref in
      branch (claim_ref.uid == claim_uid) (pure bucket) (
        branch (not (claim_ref.uid == "") && not (claim_ref.uid == claim_uid))
          (fail (
            non_retryable_error (
              errorf "Bucket claim ref UID %q does not match BucketClaim UID %q"
                (text claim_ref.uid ∷ text claim_uid ∷ []))))
          (on_error (wrapf "failed to set bucketClaimRef.UID on Bucket: %w" []) (
            call (update_bucket (bound_to claim_uid bucket))
              (λ h. env.on_update_bucket h (bound_to claim_uid bucket)))))

  unfoldable pub remove_claim_finalizer : Action BucketClaim (Unit {0})
  remove_claim_finalizer = do
    modify (λ c. record c {
      metadata = record c.metadata {
        finalizers = env.runtime.remove_finalizer c.metadata.finalizers protection_finalizer;
      };
    })
    on_error (wrapf "failed to remove finalizer: %w" []) update_claim

  unfoldable pub apply_bucket_claim_is_deleting_annotation : Bucket → Action BucketClaim Bucket
  apply_bucket_claim_is_deleting_annotation bucket =
      on_error (wrapf "failed to annotate Bucket to indicate BucketClaim is being deleted: %w" [])
        (call (update_bucket (annotated bucket)) (λ h. env.on_update_bucket h (annotated bucket)))

  -- `case cosiapi.BucketDeletionPolicyDelete`
  unfoldable pub delete_bound_bucket : Bucket → Action BucketClaim (Unit {0})
  delete_bound_bucket bucket =
      branch (is_deleting bucket.metadata)
        (fail (errorf "still waiting for Bucket to be deleted" []))
        do
          marked ← apply_bucket_claim_is_deleting_annotation bucket
          on_error (wrapf "failed to delete Bucket: %w" [])
              (call (delete_bucket marked) (λ h. env.on_delete_bucket h marked))
          fail (errorf "waiting for Bucket to be deleted" [])

  -- The `switch` on the deletion policy of a Bucket that is bound to the claim.
  unfoldable pub release_bucket : Bucket → Action BucketClaim (Unit {0})
  release_bucket bucket =
      branch (bucket.spec.deletion_policy == retain)
        (do marked ← apply_bucket_claim_is_deleting_annotation bucket; remove_claim_finalizer)
        (branch (bucket.spec.deletion_policy == delete) (delete_bound_bucket bucket) (
          fail (
            non_retryable_error (
              errorf "unknown Bucket deletion policy %q" (text bucket.spec.deletion_policy ∷ [])))))

  -- What follows from the answer of `bucketIsBoundToClaim`.
  unfoldable pub release : Bool → Bucket → Result Bool → Action BucketClaim (Unit {0})
  release is_static bucket (err e) = branch is_static remove_claim_finalizer (
      fail (
        non_retryable_error (
          wrapf
            "administrator must resolve unexpected error: dynamic Bucket does not reference this BucketClaim: %w"
            [] e)))
  release is_static bucket (ok is_bound) =
      branch (not is_bound) remove_claim_finalizer (release_bucket bucket)

  -- What follows from the answer of the server to the read of the Bucket.
  unfoldable pub release_found : Bool → Result Bucket → Action BucketClaim (Unit {0})
  release_found is_static (err e) = branch (env.is_not_found e) remove_claim_finalizer (fail e)
  release_found is_static (ok bucket) = do
    claim ← object
    release is_static bucket (bucket_is_bound_to_claim bucket claim)

  unfoldable pub reconcile_delete : String → Bool → Action BucketClaim (Unit {0})
  reconcile_delete bucket_name is_static = do
    modify (λ c. record c { status = record c.status { ready_to_use = some false; error = none } })
    on_error (wrapf "failed to update BucketClaim status before deletion: %w" [])
        update_claim_status
    found ← try (call (get_bucket bucket_name) (λ h. env.on_get_bucket h bucket_name))
    release_found is_static found

  unfoldable pub protect_claim : Action BucketClaim (Unit {0})
  protect_claim = do
    claim ← object
    let added = env.runtime.add_finalizer claim.metadata.finalizers protection_finalizer
    modify (λ c. record c { metadata = record c.metadata { finalizers = added.0 } })
    when added.1 (on_error (wrapf "failed to add protection finalizer: %w" []) update_claim)

  -- What follows from the answer of the server to the read of the Bucket.
  unfoldable pub use_found : String → Bool → Result Bucket → Action BucketClaim Bucket
  use_found bucket_name is_static (ok bucket) = pure bucket
  use_found bucket_name is_static (err e) = do
    claim ← object
    branch (not (env.is_not_found e)) (fail e) (
        branch (not (claim.status.bound_bucket_name == ""))
          (fail (
            non_retryable_error (
              errorf
                "unrecoverable degradation: BucketClaim is bound to Bucket %q that no longer exists"
                (text claim.status.bound_bucket_name ∷ []))))
          (branch is_static
            (fail (
              errorf "waiting for statically-provisioned Bucket %q to exist"
                (text bucket_name ∷ [])))
            (create_intermediate_bucket claim bucket_name)))

  -- From `bucketIsBoundToClaim` to the binding of a static Bucket. The `%w` of the last error has a
  -- nil error, which Go prints and does not wrap.
  unfoldable pub bind_bucket : Bool → Bucket → Action BucketClaim Bucket
  bind_bucket is_static bucket = do
    claim ← object
    is_bound ← on_error non_retryable_error (lift (bucket_is_bound_to_claim bucket claim))
    branch (not is_bound)
        (branch is_static (ensure_static_bucket_bound bucket claim.metadata.uid)
          (fail (non_retryable_error (errorf "dynamic Bucket is malformed: %w" []))))
        (pure bucket)

  unfoldable pub bind_claim : String → Action BucketClaim (Unit {0})
  bind_claim bucket_name = do
    claim ← object
    when (claim.status.bound_bucket_name == "") do
      modify (λ c. record c {
        status = record c.status {
          ready_to_use = some (deref c.status.ready_to_use false);
          bound_bucket_name = bucket_name;
        };
      })
      on_error (wrapf "failed to bind BucketClaim to Bucket: %w" []) update_claim_status

  -- `ptr.Deref(ReadyToUse, false) && len(Protocols) == 0`
  unfoldable pub has_no_protocols : Bucket → Bool
  has_no_protocols bucket =
      deref bucket.status.ready_to_use false && is_empty bucket.status.protocols

  unfoldable pub report_bucket : Bucket → Action BucketClaim (Unit {0})
  report_bucket bucket =
      branch (bucket.status.bucket_id == "")
        (fail (errorf "waiting for Bucket to be provisioned" []))
        (branch (has_no_protocols bucket)
          (fail (non_retryable_error (errorf "provisioned Bucket supports no protocols" [])))
          do
            modify (λ c. record c {
              status = record c.status {
                ready_to_use = bucket.status.ready_to_use;
                protocols = bucket.status.protocols;
                error = none;
              };
            })
            update_claim_status)

  -- The reconcile of a claim that is not being deleted.
  unfoldable pub bind : String → Bool → Action BucketClaim (Unit {0})
  bind bucket_name is_static = do
    protect_claim
    found ← try (call (get_bucket bucket_name) (λ h. env.on_get_bucket h bucket_name))
    bucket ← use_found bucket_name is_static found
    bound ← bind_bucket is_static bucket
    bind_claim bucket_name
    report_bucket bound

  unfoldable pub reconcile_claim : Action BucketClaim (Unit {0})
  reconcile_claim = do
    claim ← object
    bucket_name ← on_error non_retryable_error (lift (determine_bucket_name claim))
    let is_static = not (claim.spec.existing_bucket_name == "")
    branch (is_deleting claim.metadata) (reconcile_delete bucket_name is_static)
        (bind bucket_name is_static)
