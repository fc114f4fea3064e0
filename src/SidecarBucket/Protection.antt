-- ===== src/SidecarBucket/Protection.antt =====
-- bucket.go: the driver is not called before the protection finalizer is stored.
use container_object_storage.Prelude.{
  ◌≡◌, refl, ◌∙◌, ◌⊎◌, inl, Bool, true, false, List, [], ◌∷◌, arith, ℕ,
}
use container_object_storage.Errors.{Error, ok}
use container_object_storage.Api.Meta.{protection_finalizer}
use container_object_storage.Api.Bucket.{Bucket}
use container_object_storage.Runtime.{IsLawful}
use container_object_storage.Driver.{DriverInfo}
use container_object_storage.World.{
  Env, History, update_bucket, driver_create_bucket, driver_get_existing_bucket,
}
use container_object_storage.World.Action.{State, start, on_error}
use container_object_storage.World.Ensures.Steps.{Ensures-lifted, Ensures-checked}
use container_object_storage.World.Ensures.{
  Ensures-always, Ensures, Ensures-bind, Ensures-pure, Ensures-fail, Ensures-lift, Ensures-branch,
  Ensures-on_error, Ensures-call, Ensures-object, Ensures-set_object, Ensures-modify, Ensures-when,
  Ensures-weaken,
}
use container_object_storage.SidecarBucket.Provision.{
  ProvisionedBucketDetails, dynamic_provision, static_provision,
}
use container_object_storage.SidecarBucket.{
  update, update_status, set_finalizers, protect, cleanup, provision, finish, provisioning,
  reconcile,
}

module _ (env : Env) (b0 : Bucket) where
  abbrev pub HasFinalizer : Bucket → Type 0
  HasFinalizer b = env.runtime.contains_finalizer b.metadata.finalizers protection_finalizer ≡ true

  -- The Bucket had the finalizer at the start, or an update that carried it succeeded.
  abbrev pub IsStored : History → Type 0
  IsStored [] = HasFinalizer b0
  IsStored (update_bucket b (ok c) ∷ h) = HasFinalizer b ⊎ IsStored h
  IsStored (_ ∷ h) = IsStored h

  -- Whenever the driver was called to provision, the finalizer was stored before.
  abbrev pub IsProtected : History → Type 0
  IsProtected [] = Unit
  IsProtected (driver_create_bucket q r ∷ h) = IsStored h × IsProtected h
  IsProtected (driver_get_existing_bucket q r ∷ h) = IsStored h × IsProtected h
  IsProtected (_ ∷ h) = IsProtected h

  abbrev Before : State Bucket → Type 0
  Before s = (s.object ≡ b0) × (s.history ≡ [])

  abbrev Any : State Bucket → Type 0
  Any s = IsProtected s.history

  abbrev Stored : State Bucket → Type 0
  Stored s = IsStored s.history × IsProtected s.history

  Any-Before : (s : State Bucket) → Before s → Any s
  Any-Before s h = rw h.1 tt

  module _ (l : IsLawful env.runtime) where
    update-stores :
        Ensures
          (λ s. (s.history ≡ []) × HasFinalizer s.object)
          (update env)
          (λ _. Stored)
          (λ _. Any)
    unfolding update
    update-stores = Ensures-bind _ Ensures-object λ b.
        Ensures-bind (λ c. Stored)
          (Ensures-call (update_bucket b) _ (λ c s h e. rw h.0.0 (inl (rw h.1 h.0.1), tt))
            (λ x s h e. rw h.0.0 tt))
          (λ c. Ensures-set_object c (λ s h. h))

    set_finalizers-adds :
        (b : Bucket)
        → Ensures
            (λ s. Before s × (b ≡ s.object))
            (set_finalizers env
              (env.runtime.add_finalizer b.metadata.finalizers protection_finalizer).0)
            (λ _ s. (s.history ≡ []) × HasFinalizer s.object × (b ≡ b0))
            (λ _. Any)
    unfolding set_finalizers
    set_finalizers-adds b = Ensures-modify _ (λ s h.
        (h.0.1, l.contains-add_finalizer b.metadata.finalizers protection_finalizer, h.1 ∙ h.0.0))

    present :
        (b : Bucket)
        → (env.runtime.add_finalizer b.metadata.finalizers protection_finalizer).1 ≡ false
        → HasFinalizer b
    present b h =
        ground (arith, l.add_finalizer_unchanged b.metadata.finalizers protection_finalizer)

    protect-stores : Ensures Before (protect env) (λ _. Stored) (λ _. Any)
    unfolding protect
    protect-stores = Ensures-bind _ Ensures-object λ b. Ensures-bind _ (set_finalizers-adds b) λ _.
        Ensures-when _
          (λ h.
            Ensures-on_error (λ _. Any) _ (Ensures-weaken update-stores (λ s p. (p.0, p.1)))
              (λ e s h. h))
          (λ h s p. rw p.0 (rw p.2 at (present b h), tt))

    dynamic_provision-keeps :
        (p : _) → Ensures Stored (dynamic_provision env p) (λ _. Stored) (λ _. Any)
    unfolding dynamic_provision
    dynamic_provision-keeps p =
        Ensures-branch _ (λ _. Ensures-fail _ (λ s h. h.1))
          λ _.
            Ensures-bind _
              (Ensures-on_error (λ _. Stored) _
                (Ensures-call _ _ (λ a s h e. (h.0, h)) (λ a s h e. (h.0, h))) (λ e s h. h.1))
              λ r. Ensures-lift _ (λ a e s h. h) (λ x e s h. h.1)

    static_provision-keeps :
        (p : _) → Ensures Stored (static_provision env p) (λ _. Stored) (λ _. Any)
    unfolding static_provision
    static_provision-keeps p =
        Ensures-branch _ (λ _. Ensures-fail _ (λ s h. h.1))
          λ _.
            Ensures-bind _
              (Ensures-on_error (λ _. Stored) _
                (Ensures-call _ _ (λ a s h e. (h.0, h)) (λ a s h e. (h.0, h))) (λ e s h. h.1))
              λ r. Ensures-lift _ (λ a e s h. h) (λ x e s h. h.1)

    provision-keeps :
        (b : Bool) (ps : List ℕ) → Ensures Stored (provision env b ps) (λ _. Stored) (λ _. Any)
    unfolding provision
    provision-keeps b ps = Ensures-bind _ Ensures-object λ o.
        Ensures-branch _ (λ _. Ensures-weaken (static_provision-keeps _) (λ s h. h.0))
          (λ _. Ensures-weaken (dynamic_provision-keeps _) (λ s h. h.0))

    update_status-keeps :
        (f : Error → Error) → Ensures Any (on_error f (update_status env)) (λ _. Any) (λ _. Any)
    unfolding update_status
    update_status-keeps f =
        Ensures-on_error (λ _. Any) f
          (Ensures-bind _ Ensures-object λ o.
            Ensures-bind (λ _. Any) (Ensures-call _ _ (λ a s h e. h.0) (λ a s h e. h.0))
              λ c. Ensures-set_object _ (λ s h. h))
          (λ e s h. h)

    finish-keeps :
        (d : ProvisionedBucketDetails) → Ensures Stored (finish env d) (λ _. Any) (λ _. Any)
    unfolding finish
    finish-keeps d = Ensures-bind _ Ensures-object λ o.
        Ensures-checked _ (λ s h. h.0.1)
          λ valid.
            Ensures-bind (λ _. Any) (Ensures-modify _ (λ s h. h.0.1)) λ _. update_status-keeps _

    provisioning-keeps :
        (info : DriverInfo) → Ensures Before (provisioning env info) (λ _. Any) (λ _. Any)
    unfolding provisioning
    provisioning-keeps info = Ensures-bind _ Ensures-object λ b.
        Ensures-lifted _ _ (λ s h. Any-Before s h.0)
          λ ps translated.
            Ensures-checked _ (λ s h. Any-Before s h.0)
              λ supported.
                Ensures-bind _ (Ensures-weaken protect-stores (λ s h. h.0))
                  λ _. Ensures-bind _ (provision-keeps _ ps) finish-keeps

    cleanup-keeps : Ensures Before (cleanup env) (λ _. Any) (λ _. Any)
    unfolding cleanup set_finalizers update
    cleanup-keeps = Ensures-bind _ Ensures-object λ b.
        Ensures-bind (λ _. Any) (Ensures-modify _ (λ s h. Any-Before s h.0))
          λ _.
            Ensures-bind (λ _. Any)
              (Ensures-on_error (λ _. Any) _
                (Ensures-bind _ Ensures-object λ o.
                  Ensures-bind (λ _. Any) (Ensures-call _ _ (λ a s h e. h.0) (λ a s h e. h.0))
                    λ c. Ensures-set_object _ (λ s h. h))
                (λ e s h. h))
              λ _. Ensures-fail _ (λ s h. h)

    reconcile-keeps :
        (info : DriverInfo) → Ensures Before (reconcile env info) (λ _. Any) (λ _. Any)
    unfolding reconcile
    reconcile-keeps info = Ensures-bind _ Ensures-object λ b.
        Ensures-branch _ (λ _. Ensures-pure _ (λ s h. Any-Before s h.0))
          λ _.
            Ensures-branch _ (λ _. Ensures-weaken cleanup-keeps (λ s h. h.0))
              (λ _. Ensures-weaken (provisioning-keeps info) (λ s h. h.0))

    -- Where the finalizer helpers do what they document: in every run of `reconcile` on a Bucket,
    -- successful or not, the driver is called to provision only after the protection finalizer is
    -- stored: the Bucket had it, or an update with it succeeded.
    pub reconcile-IsProtected :
        (info : DriverInfo) → IsProtected (reconcile env info (start b0)).1.history
    reconcile-IsProtected info = Ensures-always (reconcile-keeps info) (start b0) (refl, refl)
