-- ===== src/ClaimController/Deletion.antt =====
-- bucketclaim.go: the whole reconcile of a claim that is being deleted.
use container_object_storage.Prelude.{◌≡◌, refl, ◌∙◌, String, Bool, true, false, [], arith, eq_iff}
use container_object_storage.Errors.{Result, ok, err}
use container_object_storage.Api.Meta.{is_deleting}
use container_object_storage.Api.Bucket.{retain, delete, Bucket, BucketClaim}
use container_object_storage.Runtime.{IsLawful}
use container_object_storage.World.{Env}
use container_object_storage.World.Action.{State, start}
use container_object_storage.World.Ensures.{
  Ensures, Ensures-bind, Ensures-fail, Ensures-lift, Ensures-branch, Ensures-on_error, Ensures-call,
  Ensures-object, Ensures-set_object, Ensures-modify, Ensures-try, Ensures-weaken, Ensures-loosen,
  Ensures-always, Ensures-success,
}
use container_object_storage.ClaimController.Binding.{bucket_is_bound_to_claim}
use container_object_storage.ClaimController.Bound.{
  BelongsTo, IsSameClaim, KeepsClaims, IsSameClaim-refl, IsSameClaim-trans, BelongsTo-same,
  BelongsTo-same_back, bucket_is_bound_to_claim_cases,
}
use container_object_storage.ClaimController.{
  update_claim_status, release, release_bucket, release_found, reconcile_delete, reconcile_claim,
}
use container_object_storage.ClaimController.Release.{
  IsReleasable, IsGuarded, IsReleased, Guarded, Read, Done, remove_claim_finalizer-guards,
  annotation-guards, delete_bound_bucket-guards,
}

module _ (env : Env) (c : BucketClaim) where
  module _ (lawful : IsLawful env.runtime) where
    release_bucket-guards :
        (b : Bucket)
        → BelongsTo b c
        → Ensures (Read env c b) (release_bucket env b) (λ _. Done env c) (λ _. Guarded env c)
    unfolding release_bucket
    release_bucket-guards b p =
        let is_retain = eq_iff b.spec.deletion_policy retain in
        let is_delete = eq_iff b.spec.deletion_policy delete in
        Ensures-branch _
          (λ r. Ensures-bind _ (annotation-guards env c b p) λ d.
            Ensures-weaken (remove_claim_finalizer-guards env c lawful)
              (λ s h. (h.0 (is_retain.0 r), h.2)))
          (λ r.
            Ensures-branch _ (λ d. delete_bound_bucket-guards env c b p (is_delete.0 d))
              (λ d. Ensures-fail _ (λ s h. h.2)))

    release-guards :
        (b : Bucket) (o : BucketClaim) (is_static : Bool) (r : Result Bool)
        → IsSameClaim c o
        → bucket_is_bound_to_claim b o ≡ r
        → Ensures (Read env c b) (release env is_static b r) (λ _. Done env c) (λ _. Guarded env c)
    unfolding release
    release-guards b o is_static (err x) same e =
        let other = (λ (p : BelongsTo b c).
          let q = (bucket_is_bound_to_claim_cases b o).0.1 (BelongsTo-same_back b same p) in
          absurd (ground arith)) in
        Ensures-branch _
          (λ t.
            Ensures-weaken (remove_claim_finalizer-guards env c lawful) (λ s h. (h.1 other, h.2)))
          (λ t. Ensures-fail _ (λ s h. h.2))
    release-guards b o is_static (ok true) same e =
        Ensures-branch _ (λ t. absurd (ground arith))
          (λ t.
            release_bucket-guards b
              (BelongsTo-same b same ((bucket_is_bound_to_claim_cases b o).0.0 e)))
    release-guards b o is_static (ok false) same e =
        let other = (λ (p : BelongsTo b c).
          let q = (bucket_is_bound_to_claim_cases b o).0.1 (BelongsTo-same_back b same p) in
          absurd (ground arith)) in
        Ensures-branch _
          (λ t.
            Ensures-weaken (remove_claim_finalizer-guards env c lawful) (λ s h. (h.1 other, h.2)))
          (λ t. absurd (ground arith))

    abbrev Known : State BucketClaim → Type 0
    Known s = IsSameClaim c s.object × IsGuarded env c s.history

    -- What the answer to the read of the Bucket allows.
    abbrev Found : Result Bucket → State BucketClaim → Type 0
    Found (ok b) s = IsSameClaim c s.object × Read env c b s
    Found (err e) s =
        (env.is_not_found e ≡ true → IsReleasable env c s.history) × IsGuarded env c s.history

    release_found-guards :
        (is_static : Bool) (r : Result Bucket)
        → Ensures (Found r) (release_found env is_static r) (λ _. Done env c) (λ _. Guarded env c)
    unfolding release_found
    release_found-guards is_static (err e) =
        Ensures-branch _
          (λ t. Ensures-weaken (remove_claim_finalizer-guards env c lawful) (λ s h. (h.0 t, h.1)))
          (λ t. Ensures-fail _ (λ s h. h.1))
    release_found-guards is_static (ok b) = Ensures-bind _ Ensures-object λ o. record {
      at = λ s h.
          let same : IsSameClaim c o = rw h.1 h.0.0 in
          (release-guards b o is_static _ same refl).at s h.0.1;
    }

    module _ (k : KeepsClaims env) where
      update_claim_status-knows :
          Ensures Known (update_claim_status env) (λ _. Known) (λ _. Guarded env c)
      unfolding update_claim_status
      update_claim_status-knows = Ensures-bind _ Ensures-object λ o.
          Ensures-bind (λ d s. IsSameClaim c d × IsGuarded env c s.history)
            (Ensures-call _ _
              (λ d s h e.
                let same : IsSameClaim c o = rw h.1 h.0.0 in
                (IsSameClaim-trans same (k.on_status s.history o d e).0, h.0.1))
              (λ x s h e. h.0.1))
            (λ d. Ensures-set_object d (λ s h. h))

      reconcile_delete-guards :
          (n : String) (is_static : Bool)
          → Ensures Known (reconcile_delete env n is_static) (λ _. Done env c) (λ _. Guarded env c)
      unfolding reconcile_delete
      reconcile_delete-guards n is_static =
          Ensures-bind (λ _. Known)
            (Ensures-modify _ (λ s h. (
              record {
                same_namespace = h.0.same_namespace;
                same_name = h.0.same_name;
                same_uid = h.0.same_uid;
              },
              h.1,
            )))
            λ _.
              Ensures-bind (λ _. Known)
                (Ensures-on_error (λ _. Guarded env c) _ update_claim_status-knows (λ e s h. h))
                λ _.
                  Ensures-bind Found
                    (Ensures-try _ (
                      Ensures-call _ _ (λ b s h e. (h.0, ((λ p. (p, refl)), (λ p. p), h.1)))
                        (λ x s h e. ((λ t. t), h.1))))
                    (release_found-guards is_static)

      delete_run-guards :
          is_deleting c.metadata ≡ true
          → Ensures
              (λ s. (s.object ≡ c) × (s.history ≡ []))
              (reconcile_claim env)
              (λ _. Done env c)
              (λ _. Guarded env c)
      unfolding reconcile_claim
      delete_run-guards l = Ensures-bind _ Ensures-object λ o.
          Ensures-bind (λ _ s. (o ≡ c) × Known s)
            (Ensures-on_error (λ _. Guarded env c) _
              (Ensures-lift _
                (λ a e s h. (h.1 ∙ h.0.0, (rw (h.0.0) (IsSameClaim-refl c), rw h.0.1 tt)))
                (λ x e s h. rw h.0.1 tt))
              (λ e s h. h))
            λ n.
              Ensures-branch _ (λ t. Ensures-weaken (reconcile_delete-guards n _) (λ s h. h.1))
                (λ t. record { at = λ s h. let t' = rw h.0 at t in absurd (ground arith) })

      -- Where the server keeps the identity of claims and the finalizer helpers do what they
      -- document: while a claim is deleted, a Bucket is updated only to add the annotation to the
      -- Bucket just read that belongs to the claim; it is deleted only after that update succeeded,
      -- with the policy Delete and when it was not yet being deleted; and the finalizer of the claim
      -- is removed only when there is no Bucket, when the Bucket does not belong to the claim, or
      -- when it is retained and annotated.
      pub reconcile_claim-IsGuarded :
          is_deleting c.metadata ≡ true → IsGuarded env c (reconcile_claim env (start c)).1.history
      reconcile_claim-IsGuarded d =
          Ensures-always (Ensures-loosen (delete_run-guards d) (λ a s h. h.1)) (start c)
            (refl, refl)

      -- Where the server keeps the identity of claims and the finalizer helpers do what they
      -- document, a reconcile of a claim that is being deleted succeeds only after the claim was
      -- stored without the protection finalizer.
      pub reconcile_claim-IsReleased :
          is_deleting c.metadata ≡ true
          → (reconcile_claim env (start c)).0 ≡ ok tt
          → IsReleased env c (reconcile_claim env (start c)).1.history
      reconcile_claim-IsReleased d e =
          (Ensures-success (delete_run-guards d) (start c) (refl, refl) e).0
