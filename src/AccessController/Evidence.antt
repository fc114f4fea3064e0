-- ===== src/AccessController/Evidence.antt =====
-- bucketaccess.go of the Controller: what the history of a reconcile says of the claims and Buckets of
-- a BucketAccess.
use container_object_storage.Prelude.{
  ◌≡◌, ◌≢◌, ◌⊎◌, inl, inr, String, true, false, none, List, [], ◌∷◌, contains, deref,
}
use container_object_storage.Errors.{ok}
use container_object_storage.Api.Meta.{is_deleting}
use container_object_storage.Api.Bucket.{Bucket, BucketClaim}
use container_object_storage.Api.Access.{
  BucketAccess, BucketAccessClass, BucketClaimAccess, AccessedBucket,
}
use container_object_storage.World.{
  Env, Call, History, get_bucket, create_bucket, update_bucket, update_bucket_status, delete_bucket,
  get_bucket_claim, update_bucket_claim, update_bucket_claim_status, update_bucket_access_status,
  get_bucket_access_class, create_secret, update_secret, delete_secret, driver_create_bucket,
  driver_get_existing_bucket, driver_grant_bucket_access, driver_revoke_bucket_access,
}
use container_object_storage.World.Recorded.{Recorded}
use container_object_storage.World.Accesses.Protection.{IsSameAccess, IsStored}
use container_object_storage.AccessController.Validation.{validate_access_against_class}
use container_object_storage.AccessController.Marks.{marked, is_marked}
use container_object_storage.AccessController.Lookup.{accessed_bucket}

module _ (a : BucketAccess) where
  -- The server answered the read of the name in the namespace of the BucketAccess with the claim.
  abbrev pub IsRead : String → BucketClaim → History → Type 0
  IsRead n c h = Recorded (get_bucket_claim a.metadata.namespace n (ok c)) h

  -- The claim is as it was read, or as the server stored it with the mark.
  abbrev pub IsClaimOf : String → BucketClaim → History → Type 0
  IsClaimOf n c h =
      IsRead n c h
      ⊎ ((d : BucketClaim) × IsRead n d h × Recorded (update_bucket_claim (marked d) (ok c)) h)

  -- The claim of this name was read with the mark, or stored with it.
  abbrev pub IsMarked : String → History → Type 0
  IsMarked n h =
      ((c : BucketClaim) × IsRead n c h × (is_marked c ≡ true))
      ⊎ ((c : BucketClaim) × (d : BucketClaim) × IsRead n c h
          × Recorded (update_bucket_claim (marked c) (ok d)) h)

  -- The entry of the status was made of a claim and its Bucket that were ready for access.
  pub record IsAccessible (h : History) (ref : BucketClaimAccess) (x : AccessedBucket)
      : Type 0 where
    pub claim : BucketClaim
    pub is_claim : IsClaimOf ref.bucket_claim_name claim h
    pub has_mark : IsMarked ref.bucket_claim_name h
    pub is_living : is_deleting claim.metadata ≡ false
    pub is_ready : deref claim.status.ready_to_use false ≡ true
    pub supports :
        claim.status.protocols ≢ [] → contains claim.status.protocols a.spec.protocol ≡ true
    pub bucket : Bucket
    pub is_bucket : Recorded (get_bucket claim.status.bound_bucket_name (ok bucket)) h
    pub has_id : bucket.status.bucket_id ≢ ""
    pub same_entry : x ≡ accessed_bucket ref bucket

  -- The entries belong to the references, in their order.
  abbrev pub AreAccessible : History → List BucketClaimAccess → List AccessedBucket → Type 0
  AreAccessible h [] [] = Unit
  AreAccessible h (r ∷ rs) (x ∷ xs) = IsAccessible h r x × AreAccessible h rs xs
  AreAccessible h _ _ = ⊥

  -- The BucketAccess has what the Sidecar needs, from the class and the Buckets that were read.
  pub record IsInitializedFrom (h : History) (b : BucketAccess) : Type 0 where
    pub same_access : IsSameAccess a b
    pub accessible : AreAccessible h a.spec.bucket_claims b.status.accessed_buckets
    pub class : BucketAccessClass
    pub is_class : Recorded (get_bucket_access_class a.spec.bucket_access_class_name (ok class)) h
    pub is_valid : validate_access_against_class class.spec a.spec ≡ none
    pub same_driver : b.status.driver_name ≡ class.spec.driver_name
    pub same_authentication : b.status.authentication_type ≡ class.spec.authentication_type
    pub same_parameters : b.status.parameters ≡ class.spec.parameters
    pub no_error : b.status.error ≡ none

  -- The latest call stored the initialised status.
  abbrev pub IsHandedOver : History → Type 0
  IsHandedOver (update_bucket_access_status b (ok c) ∷ h) = IsInitializedFrom h b
  IsHandedOver _ = ⊥

  module _ (env : Env) where
    -- In the whole history a claim is updated only to add the mark to one that was read, after the
    -- finalizer of the BucketAccess was stored; and no Bucket, Secret or driver is touched.
    abbrev pub IsTidy : History → Type 0
    IsTidy [] = Unit
    IsTidy (update_bucket_claim d r ∷ h) =
        ((n : String) × (c : BucketClaim) × IsRead n c h × (d ≡ marked c))
        × IsStored a env h
        × IsTidy h
    IsTidy (update_bucket_claim_status d r ∷ h) = ⊥
    IsTidy (create_bucket b r ∷ h) = ⊥
    IsTidy (update_bucket b r ∷ h) = ⊥
    IsTidy (update_bucket_status b r ∷ h) = ⊥
    IsTidy (delete_bucket b r ∷ h) = ⊥
    IsTidy (create_secret s r ∷ h) = ⊥
    IsTidy (update_secret s r ∷ h) = ⊥
    IsTidy (delete_secret s r ∷ h) = ⊥
    IsTidy (driver_create_bucket q r ∷ h) = ⊥
    IsTidy (driver_get_existing_bucket q r ∷ h) = ⊥
    IsTidy (driver_grant_bucket_access q r ∷ h) = ⊥
    IsTidy (driver_revoke_bucket_access q r ∷ h) = ⊥
    IsTidy (_ ∷ h) = IsTidy h

  pub IsClaimOf-later :
      (x : Call) (h : History) {n : String} {c : BucketClaim}
      → IsClaimOf n c h
      → IsClaimOf n c (x ∷ h)
  IsClaimOf-later x h (inl p) = inl (inr p)
  IsClaimOf-later x h (inr (d, p, q)) = inr (d, inr p, inr q)

  pub IsMarked-later : (x : Call) (h : History) {n : String} → IsMarked n h → IsMarked n (x ∷ h)
  IsMarked-later x h (inl (c, p, q)) = inl (c, inr p, q)
  IsMarked-later x h (inr (c, d, p, q)) = inr (c, d, inr p, inr q)
