-- ===== src/SidecarAccess/Evidence.antt =====
-- sidecar/pkg/reconciler/bucketaccess.go: what the history of a reconcile may hold.
use container_object_storage.Prelude.{
  ◌≡◌, ◌≢◌, String, true, false, none, some, [], ◌∷◌, All, dict_get,
}
use Prim.Native.String.{◌++◌ as append}
use container_object_storage.Errors.{ok}
use container_object_storage.Api.Meta.{is_deleting}
use container_object_storage.Api.Bucket.{Bucket}
use container_object_storage.Api.Access.{BucketAccess}
use container_object_storage.Api.Secret.{Secret}
use container_object_storage.World.{
  Env, Call, History, get_bucket, create_bucket, update_bucket, update_bucket_status, delete_bucket,
  update_bucket_claim, update_bucket_claim_status, create_secret, update_secret, delete_secret,
  driver_create_bucket, driver_get_existing_bucket, driver_grant_bucket_access,
  driver_revoke_bucket_access,
}
use container_object_storage.World.Recorded.{Recorded}
use container_object_storage.World.Action.{State}
use container_object_storage.World.Accesses.Protection.{IsStored, IsStored-later, Kept}
use container_object_storage.SidecarAccess.Config.{Secrets}
use container_object_storage.SidecarAccess.Buckets.{validate_bucket_is_ready_for_access}

-- The server answers a Secret by its name, and stores a Secret with the name and the owner references
-- that it is sent.
pub record KeepsSecrets (env : Env) : Type 0 where
  pub on_get :
      (h : History) (namespace name : String) (s : Secret)
      → env.on_get_secret h namespace name ≡ ok s
      → s.metadata.name ≡ name
  pub on_create :
      (h : History) (s t : Secret)
      → env.on_create_secret h s ≡ ok t
      → (s.metadata.owners ≡ t.metadata.owners) × (s.metadata.name ≡ t.metadata.name)
  pub on_update :
      (h : History) (s t : Secret)
      → env.on_update_secret h s ≡ ok t
      → (s.metadata.owners ≡ t.metadata.owners) × (s.metadata.name ≡ t.metadata.name)

module _ (env : Env) (a : BucketAccess) where
  -- The BucketAccess is the controller of the Secret.
  abbrev pub IsOwned : Secret → Type 0
  IsOwned s = env.runtime.is_controlled_by s.metadata.owners a.metadata.uid ≡ true

  abbrev pub IsOwnedAs : String → Secret → Type 0
  IsOwnedAs n s = IsOwned s × (s.metadata.name ≡ n)

  abbrev pub AreOwned : Secrets → Type 0
  AreOwned m = (n : String) (s : Secret) → dict_get m n ≡ some s → IsOwnedAs n s

  -- Each Bucket in the status was answered by the server, ready for access and with its bucket ID.
  abbrev pub AreReady : History → Type 0
  AreReady h =
      All
        (λ ab.
          (b : Bucket) × Recorded (get_bucket ab.bucket_name (ok b)) h
          × (validate_bucket_is_ready_for_access b ab.bucket_id ≡ none))
        a.status.accessed_buckets

  -- In the whole history only Secrets that the BucketAccess controls are created, updated or deleted;
  -- they are deleted only when the BucketAccess is; the driver is called to grant access only for a
  -- living BucketAccess, under the account name that its UID fixes, after its finalizer was stored and
  -- its Buckets were found ready; it is called to revoke access only for the recorded account of a
  -- BucketAccess that is being deleted; and no claim and no Bucket is changed.
  abbrev pub IsCareful : History → Type 0
  IsCareful [] = Unit
  IsCareful (create_secret s r ∷ h) = IsOwned s × (is_deleting a.metadata ≡ false) × IsCareful h
  IsCareful (update_secret s r ∷ h) = IsOwned s × IsCareful h
  IsCareful (delete_secret s r ∷ h) = IsOwned s × (is_deleting a.metadata ≡ true) × IsCareful h
  IsCareful (driver_grant_bucket_access q r ∷ h) =
      (is_deleting a.metadata ≡ false)
      × (q.account_name ≡ append "ba-" a.metadata.uid)
      × IsStored a env h
      × AreReady h
      × IsCareful h
  IsCareful (driver_revoke_bucket_access q r ∷ h) =
      (is_deleting a.metadata ≡ true)
      × (a.status.account_id ≢ "")
      × (q.account_id ≡ a.status.account_id)
      × IsCareful h
  IsCareful (create_bucket b r ∷ h) = ⊥
  IsCareful (update_bucket b r ∷ h) = ⊥
  IsCareful (update_bucket_status b r ∷ h) = ⊥
  IsCareful (delete_bucket b r ∷ h) = ⊥
  IsCareful (update_bucket_claim d r ∷ h) = ⊥
  IsCareful (update_bucket_claim_status d r ∷ h) = ⊥
  IsCareful (driver_create_bucket q r ∷ h) = ⊥
  IsCareful (driver_get_existing_bucket q r ∷ h) = ⊥
  IsCareful (_ ∷ h) = IsCareful h

  -- The BucketAccess is what it was, and its finalizer is stored.
  abbrev pub Held : State BucketAccess → Type 0
  Held = Kept env a IsCareful (λ b r h t. t)

  pub Held-later :
      (x : Call) (s : State BucketAccess)
      → Held s
      → IsCareful (x ∷ s.history)
      → Held (record s { history = x ∷ s.history })
  Held-later x s h t = (h.0, IsStored-later a env x s.history h.1, t)
