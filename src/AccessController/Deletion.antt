-- ===== src/AccessController/Deletion.antt =====
-- bucketaccess.go of the Controller: what a reconcile does with a BucketAccess that is being deleted.
pub mod Loop
use container_object_storage.Prelude.{◌≡◌, ◌⊎◌, inl, inr, Bool, true, false, String, List, [], ◌∷◌}
use container_object_storage.Errors.{Error, ok, err}
use container_object_storage.Api.Meta.{protection_finalizer}
use container_object_storage.Api.Bucket.{BucketClaim}
use container_object_storage.Api.Access.{BucketAccess}
use container_object_storage.World.{
  Env, Call, History, get_bucket, create_bucket, update_bucket, update_bucket_status, delete_bucket,
  get_bucket_claim, update_bucket_claim, update_bucket_claim_status, update_bucket_access,
  update_bucket_access_status, list_bucket_accesses, create_secret, update_secret, delete_secret,
  driver_create_bucket, driver_get_existing_bucket, driver_grant_bucket_access,
  driver_revoke_bucket_access,
}
use container_object_storage.World.Recorded.{Recorded}
use container_object_storage.AccessController.Marks.{unmarked, is_marked}
use container_object_storage.AccessController.References.{Refers, IsReferenced}
use container_object_storage.AccessController.Evidence.{IsRead}

module _ (env : Env) (a : BucketAccess) where
  abbrev pub unprotected : BucketAccess
  unprotected = record a {
    metadata = record a.metadata {
      finalizers = env.runtime.remove_finalizer a.metadata.finalizers protection_finalizer;
    };
  }

  -- The server answered the list of the BucketAccesses in the namespace.
  abbrev pub IsListed : List BucketAccess → History → Type 0
  IsListed l h = Recorded (list_bucket_accesses a.metadata.namespace (ok l)) h

  -- The claim has no mark, or another BucketAccess of the list references it, or it was stored without
  -- the mark.
  abbrev pub IsDone : List BucketAccess → BucketClaim → History → Type 0
  IsDone l c h =
      (is_marked c ≡ false)
      ⊎ (IsReferenced c.metadata.name l a.metadata.name
          ⊎ ((d : BucketClaim) × Recorded (update_bucket_claim (unmarked c) (ok d)) h))

  -- The claim of this name was answered to be missing, or needs no more work.
  abbrev pub IsLetGo : List BucketAccess → String → History → Type 0
  IsLetGo l n h =
      ((e : Error) × Recorded (get_bucket_claim a.metadata.namespace n (err e)) h
        × (env.is_not_found e ≡ true))
      ⊎ ((c : BucketClaim) × IsRead a n c h × IsDone l c h)

  abbrev pub AreLetGo : History → Type 0
  AreLetGo h =
      (l : List BucketAccess) × IsListed l h
      × ((n : String) → Refers n a.spec.bucket_claims → IsLetGo l n h)

  -- In the whole history the mark is only taken from a claim that had it when it was read, when a list
  -- of the BucketAccesses that was answered before has no other that references the claim; the
  -- BucketAccess itself is only stored without its finalizer, when all its claims were let go; and no
  -- Bucket, Secret or driver is touched.
  abbrev pub IsCautious : History → Type 0
  IsCautious [] = Unit
  IsCautious (update_bucket_claim d r ∷ h) =
      ((n : String) × (c : BucketClaim) × (l : List BucketAccess) × IsRead a n c h
        × (is_marked c ≡ true)
        × (d ≡ unmarked c)
        × IsListed l h
        × ¬ IsReferenced c.metadata.name l a.metadata.name)
      × IsCautious h
  IsCautious (update_bucket_access b r ∷ h) = (b ≡ unprotected) × AreLetGo h × IsCautious h
  IsCautious (update_bucket_access_status b r ∷ h) = ⊥
  IsCautious (update_bucket_claim_status d r ∷ h) = ⊥
  IsCautious (create_bucket b r ∷ h) = ⊥
  IsCautious (update_bucket b r ∷ h) = ⊥
  IsCautious (update_bucket_status b r ∷ h) = ⊥
  IsCautious (delete_bucket b r ∷ h) = ⊥
  IsCautious (create_secret s r ∷ h) = ⊥
  IsCautious (update_secret s r ∷ h) = ⊥
  IsCautious (delete_secret s r ∷ h) = ⊥
  IsCautious (driver_create_bucket q r ∷ h) = ⊥
  IsCautious (driver_get_existing_bucket q r ∷ h) = ⊥
  IsCautious (driver_grant_bucket_access q r ∷ h) = ⊥
  IsCautious (driver_revoke_bucket_access q r ∷ h) = ⊥
  IsCautious (_ ∷ h) = IsCautious h

  -- The latest call stored the BucketAccess without its finalizer, after its claims were let go.
  abbrev pub IsFinalized : History → Type 0
  IsFinalized (update_bucket_access b (ok c) ∷ h) = (b ≡ unprotected) × AreLetGo h
  IsFinalized _ = ⊥
