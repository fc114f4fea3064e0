-- ===== src/ClaimController/Cautious.antt =====
-- bucketclaim.go: what the reconcile of a claim that is not being deleted may do to Buckets.
use container_object_storage.Prelude.{◌≡◌, ◌≢◌, ◌⊎◌, String, true, false, none, [], ◌∷◌}
use container_object_storage.Errors.{ok, err}
use container_object_storage.Api.Meta.{protection_finalizer}
use container_object_storage.Api.Bucket.{Bucket, BucketClaim, BucketClass}
use container_object_storage.World.{
  Env, History, get_bucket, create_bucket, update_bucket, delete_bucket, get_bucket_class,
  update_bucket_claim, update_bucket_claim_status,
}
use container_object_storage.ClaimController.Binding.{generate_intermediate_bucket}
use container_object_storage.ClaimController.Bound.{BelongsTo, IsReservedFor, IsSameClaim}
use container_object_storage.ClaimController.{bound_to, has_no_protocols}

module _ (env : Env) (c : BucketClaim) where
  abbrev pub HasFinalizer : BucketClaim → Type 0
  HasFinalizer d = env.runtime.contains_finalizer d.metadata.finalizers protection_finalizer ≡ true

  -- The claim had the finalizer at the start, or an update that carried it succeeded.
  abbrev pub IsStored : History → Type 0
  IsStored [] = HasFinalizer c
  IsStored (update_bucket_claim d (ok x) ∷ h) = HasFinalizer d ⊎ IsStored h
  IsStored (_ ∷ h) = IsStored h

  -- The update only writes the claim's UID into the Bucket just read, which is reserved for the
  -- claim and bound to none.
  abbrev pub IsBinding : Bucket → History → Type 0
  IsBinding b (get_bucket n (ok a) ∷ h) = IsReservedFor a c × (b ≡ bound_to c.metadata.uid a)
  IsBinding b _ = ⊥

  -- The latest call found that there is no Bucket of this name.
  abbrev pub IsAbsent : String → History → Type 0
  IsAbsent n (get_bucket m (err e) ∷ h) = (m ≡ n) × (env.is_not_found e ≡ true)
  IsAbsent n _ = ⊥

  -- The Bucket is the one that is generated for the claim, which asks for no existing Bucket and is
  -- bound to none, of the class just read and the name of which there was just no Bucket.
  pub record IsGenerated (b : Bucket) (n class_name : String) (class : BucketClass) : Type 0 where
    pub claim : BucketClaim
    pub same_claim : IsSameClaim c claim
    pub is_dynamic : c.spec.existing_bucket_name ≡ ""
    pub is_unbound : claim.status.bound_bucket_name ≡ ""
    pub same_class : class_name ≡ claim.spec.bucket_class_name
    pub is_generated : b ≡ generate_intermediate_bucket claim class n

  abbrev pub IsCreation : Bucket → History → Type 0
  IsCreation b (get_bucket_class k (ok class) ∷ h) =
      (n : String) × IsAbsent n h × IsGenerated b n k class
  IsCreation b _ = ⊥

  -- In the whole history Buckets are only bound and created in these ways, never deleted, and not
  -- before the protection finalizer of the claim is stored.
  abbrev pub IsCautious : History → Type 0
  IsCautious [] = Unit
  IsCautious (update_bucket b r ∷ h) = IsBinding b h × IsStored h × IsCautious h
  IsCautious (create_bucket b r ∷ h) = IsCreation b h × IsStored h × IsCautious h
  IsCautious (delete_bucket b r ∷ h) = ⊥
  IsCautious (_ ∷ h) = IsCautious h

  -- The server answered with this Bucket: it belonged to the claim when it was read, or it was created
  -- or updated as a Bucket of the claim.
  abbrev pub IsServed : Bucket → History → Type 0
  IsServed b [] = ⊥
  IsServed b (get_bucket n (ok a) ∷ h) = ((a ≡ b) × BelongsTo a c) ⊎ IsServed b h
  IsServed b (create_bucket x (ok a) ∷ h) = ((a ≡ b) × BelongsTo a c) ⊎ IsServed b h
  IsServed b (update_bucket x (ok a) ∷ h) = ((a ≡ b) × BelongsTo x c) ⊎ IsServed b h
  IsServed b (_ ∷ h) = IsServed b h

  -- The claim reports what the Bucket does.
  pub record IsReport (b : Bucket) (d : BucketClaim) : Type 0 where
    pub has_id : b.status.bucket_id ≢ ""
    pub has_protocols : has_no_protocols env b ≡ false
    pub same_readiness : d.status.ready_to_use ≡ b.status.ready_to_use
    pub same_protocols : d.status.protocols ≡ b.status.protocols
    pub no_error : d.status.error ≡ none

  -- The latest call stored the claim as bound to the name, with the report of a Bucket of the claim.
  abbrev pub IsBoundTo : String → History → Type 0
  IsBoundTo n (update_bucket_claim_status d (ok x) ∷ h) =
      IsSameClaim c d
      × (d.status.bound_bucket_name ≡ n)
      × ((b : Bucket) × IsServed b h × IsReport b d)
  IsBoundTo n _ = ⊥
