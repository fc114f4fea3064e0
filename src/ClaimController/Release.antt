-- ===== src/ClaimController/Release.antt =====
-- bucketclaim.go: what the deletion of a claim may do to its Bucket, and when the claim is let go.
use container_object_storage.Prelude.{◌≡◌, refl, true, false, [], ◌∷◌, dict_get-dict_set}
use container_object_storage.Errors.{ok, err}
use container_object_storage.Api.Meta.{
  protection_finalizer, has_annotation, is_deleting, bucket_claim_being_deleted_annotation,
}
use container_object_storage.Api.Bucket.{retain, delete, Bucket, BucketClaim}
use container_object_storage.Runtime.{IsLawful}
use container_object_storage.World.{
  Env, History, get_bucket, create_bucket, update_bucket, delete_bucket, update_bucket_claim,
}
use container_object_storage.World.Action.{State}
use container_object_storage.World.Ensures.{
  Ensures, Ensures-bind, Ensures-fail, Ensures-branch, Ensures-on_error, Ensures-call,
  Ensures-object, Ensures-set_object, Ensures-modify,
}
use container_object_storage.ClaimController.Bound.{BelongsTo}
use container_object_storage.ClaimController.{
  annotated, update_claim, remove_claim_finalizer, delete_bound_bucket,
  apply_bucket_claim_is_deleting_annotation,
}

module _ (env : Env) (c : BucketClaim) where
  -- The latest call allows the claim to be let go: there is no Bucket, or none that belongs to the
  -- claim, or it is to be retained and was told that its claim is being deleted.
  abbrev pub IsReleasable : History → Type 0
  IsReleasable (get_bucket n (err e) ∷ h) = env.is_not_found e ≡ true
  IsReleasable (get_bucket n (ok b) ∷ h) = BelongsTo b c → ⊥
  IsReleasable (update_bucket b (ok d) ∷ h) =
      BelongsTo b c
      × (b.spec.deletion_policy ≡ retain)
      × (has_annotation bucket_claim_being_deleted_annotation b.metadata ≡ true)
  IsReleasable _ = ⊥

  -- The latest call allows the Bucket `d` to be deleted: it was told so, belongs to the claim, has the
  -- policy Delete, and was not yet being deleted.
  abbrev pub IsDeletable : Bucket → History → Type 0
  IsDeletable d (update_bucket b (ok s) ∷ h) =
      (s ≡ d)
      × BelongsTo b c
      × (b.spec.deletion_policy ≡ delete)
      × (has_annotation bucket_claim_being_deleted_annotation b.metadata ≡ true)
      × (is_deleting b.metadata ≡ false)
  IsDeletable d _ = ⊥

  -- The update only adds the annotation to the Bucket that was just read and belongs to the claim.
  abbrev pub IsMarking : Bucket → History → Type 0
  IsMarking d (get_bucket n (ok b) ∷ h) = BelongsTo b c × (d ≡ annotated b)
  IsMarking d _ = ⊥

  -- In the whole history Buckets and the claim are changed only where this is allowed, and no Bucket
  -- is created.
  abbrev pub IsGuarded : History → Type 0
  IsGuarded [] = Unit
  IsGuarded (update_bucket_claim d r ∷ h) = IsReleasable h × IsGuarded h
  IsGuarded (update_bucket b r ∷ h) = IsMarking b h × IsGuarded h
  IsGuarded (delete_bucket b r ∷ h) = IsDeletable b h × IsGuarded h
  IsGuarded (create_bucket b r ∷ h) = ⊥
  IsGuarded (_ ∷ h) = IsGuarded h

  abbrev pub Guarded : State BucketClaim → Type 0
  Guarded s = IsGuarded s.history

  abbrev pub Releasable : State BucketClaim → Type 0
  Releasable s = IsReleasable s.history × IsGuarded s.history

  -- What the read of the Bucket `b` allows.
  abbrev pub Read : Bucket → State BucketClaim → Type 0
  Read b s =
      (BelongsTo b c → IsMarking (annotated b) s.history)
      × ((BelongsTo b c → ⊥) → IsReleasable s.history)
      × IsGuarded s.history

  abbrev pub Marked : Bucket → Bucket → State BucketClaim → Type 0
  Marked b d s =
      (b.spec.deletion_policy ≡ retain → IsReleasable s.history)
      × (b.spec.deletion_policy ≡ delete → is_deleting b.metadata ≡ false → IsDeletable d s.history)
      × IsGuarded s.history

  annotated-has_annotation :
      (b : Bucket)
      → has_annotation bucket_claim_being_deleted_annotation (annotated b).metadata ≡ true
  annotated-has_annotation b =
      rw
        (dict_get-dict_set b.metadata.annotations bucket_claim_being_deleted_annotation
          bucket_claim_being_deleted_annotation "")
        refl

  abbrev pub HasNoFinalizer : BucketClaim → Type 0
  HasNoFinalizer d =
      env.runtime.contains_finalizer d.metadata.finalizers protection_finalizer ≡ false

  -- The latest call stored the claim without the protection finalizer.
  abbrev pub IsReleased : History → Type 0
  IsReleased (update_bucket_claim d (ok x) ∷ h) = HasNoFinalizer d
  IsReleased _ = ⊥

  abbrev pub Done : State BucketClaim → Type 0
  Done s = IsReleased s.history × IsGuarded s.history

  pub remove_claim_finalizer-guards :
      IsLawful env.runtime
      → Ensures Releasable (remove_claim_finalizer env) (λ _. Done) (λ _. Guarded)
  unfolding remove_claim_finalizer update_claim
  remove_claim_finalizer-guards l =
      Ensures-bind (λ _ s. HasNoFinalizer s.object × Releasable s)
        (Ensures-modify _ (λ s h. (l.contains-remove_finalizer s.object.metadata.finalizers _, h)))
        λ _.
          Ensures-on_error (λ _. Guarded) _
            (Ensures-bind _ Ensures-object λ o.
              Ensures-bind (λ _. Done)
                (Ensures-call _ _ (λ a s h e. (rw h.1 h.0.0, h.0.1)) (λ x s h e. h.0.1))
                λ d. Ensures-set_object d (λ s h. h))
            (λ e s h. h)

  pub annotation-guards :
      (b : Bucket)
      → BelongsTo b c
      → Ensures (Read b) (apply_bucket_claim_is_deleting_annotation env b) (Marked b) (λ _. Guarded)
  unfolding apply_bucket_claim_is_deleting_annotation
  annotation-guards b p =
      let q : BelongsTo (annotated b) c = record {
        same_namespace = p.same_namespace;
        same_name = p.same_name;
        same_uid = p.same_uid;
        is_bound = p.is_bound;
      } in
      let a = annotated-has_annotation b in
      Ensures-on_error (λ _. Guarded) _
        (Ensures-call _ _ (λ d s h e. (λ r. (q, r, a), λ r l. (refl, q, r, a, l), (h.0 p, h.2)))
          (λ x s h e. (h.0 p, h.2)))
        (λ e s h. h)

  pub delete_bound_bucket-guards :
      (b : Bucket)
      → BelongsTo b c
      → b.spec.deletion_policy ≡ delete
      → Ensures (Read b) (delete_bound_bucket env b) (λ _. Done) (λ _. Guarded)
  unfolding delete_bound_bucket
  delete_bound_bucket-guards b p r =
      Ensures-branch _ (λ _. Ensures-fail _ (λ s h. h.2))
        λ l. Ensures-bind _ (annotation-guards b p) λ d.
          Ensures-bind (λ _. Guarded)
            (Ensures-on_error (λ _. Guarded) _
              (Ensures-call _ _ (λ a s h e. (h.1 r l, h.2)) (λ x s h e. (h.1 r l, h.2)))
              (λ e s h. h))
            λ _. Ensures-fail _ (λ s h. h)
