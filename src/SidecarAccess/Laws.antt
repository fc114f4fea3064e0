-- ===== src/SidecarAccess/Laws.antt =====
-- sidecar/pkg/reconciler/bucketaccess.go: what a reconcile ensures for a BucketAccess.
use container_object_storage.Prelude.{◌≡◌, refl, sym, ap, ◌∙◌, true, false, eq_iff, arith}
use container_object_storage.Errors.{ok}
use container_object_storage.Api.Meta.{is_deleting}
use container_object_storage.Api.Access.{BucketAccess}
use container_object_storage.Driver.{DriverInfo}
use container_object_storage.Runtime.{IsLawful}
use container_object_storage.World.{Env}
use container_object_storage.World.Action.{State, start}
use container_object_storage.World.Accesses.Protection.{KeepsAccesses, Fresh}
use container_object_storage.World.Ensures.{
  Ensures, Ensures-bind, Ensures-pure, Ensures-branch, Ensures-object, Ensures-given,
  Ensures-loosen, Ensures-success, Ensures-always,
}
use container_object_storage.SidecarAccess.Evidence.{KeepsSecrets, IsCareful}
use container_object_storage.SidecarAccess.Grant.{IsGranted}
use container_object_storage.SidecarAccess.Granting.{provision-Granted}
use container_object_storage.SidecarAccess.Outcomes.{IsCleanedUp, delete-CleanedUp}
use container_object_storage.SidecarAccess.{reconcile_access}

module _ (env : Env) (info : DriverInfo) (a : BucketAccess) (l : IsLawful env.runtime)
    (keeps : KeepsAccesses env) (secrets : KeepsSecrets env) where
  abbrev Begun : State BucketAccess → Type 0
  Begun = Fresh env a (IsCareful env a) (λ b r h t. t)

  abbrev Careful : State BucketAccess → Type 0
  Careful s = IsCareful env a s.history

  living-Granted :
      a.status.driver_name ≡ info.name
      → is_deleting a.metadata ≡ false
      → Ensures Begun
          (reconcile_access env info)
          (λ _ s. IsGranted a s.history × Careful s)
          (λ _. Careful)
  unfolding reconcile_access
  living-Granted ours living =
      Ensures-bind (λ b s. (b ≡ a) × Begun s)
        (Ensures-loosen Ensures-object (λ b s h. (h.1 ∙ h.0.0, h.0)))
        λ b. Ensures-given λ same.
          Ensures-branch _
            (λ e.
              let q = ap (λ j. j.status.driver_name) same ∙ ours in
              let t = (eq_iff b.status.driver_name info.name).1 q in absurd (ground (arith, e, t)))
            (λ _.
              Ensures-branch _ (λ e. let q = ap (λ j. is_deleting j.metadata) (sym same) in cc)
                (λ _. provision-Granted env a l keeps secrets living))

  deleting-CleanedUp :
      a.status.driver_name ≡ info.name
      → is_deleting a.metadata ≡ true
      → Ensures Begun
          (reconcile_access env info)
          (λ _ s. IsCleanedUp env a s.history × Careful s)
          (λ _. Careful)
  unfolding reconcile_access
  deleting-CleanedUp ours deleting =
      Ensures-bind (λ b s. (b ≡ a) × Begun s)
        (Ensures-loosen Ensures-object (λ b s h. (h.1 ∙ h.0.0, h.0)))
        λ b. Ensures-given λ same.
          Ensures-branch _
            (λ e.
              let q = ap (λ j. j.status.driver_name) same ∙ ours in
              let t = (eq_iff b.status.driver_name info.name).1 q in absurd (ground (arith, e, t)))
            (λ _.
              Ensures-branch _ (λ _. delete-CleanedUp env a keeps secrets deleting)
                (λ e. let q = ap (λ j. is_deleting j.metadata) (sym same) in cc))

  reconcile-Careful : Ensures Begun (reconcile_access env info) (λ _. Careful) (λ _. Careful)
  unfolding reconcile_access
  reconcile-Careful =
      Ensures-bind (λ b s. (b ≡ a) × Begun s)
        (Ensures-loosen Ensures-object (λ b s h. (h.1 ∙ h.0.0, h.0)))
        λ b. Ensures-given λ same.
          Ensures-branch _ (λ _. Ensures-pure _ (λ s h. h.1))
            (λ _.
              Ensures-branch _
                (λ e.
                  Ensures-loosen
                    (delete-CleanedUp env a keeps secrets
                      (ap (λ j. is_deleting j.metadata) (sym same) ∙ e))
                    (λ _ s h. h.1))
                (λ e.
                  Ensures-loosen
                    (provision-Granted env a l keeps secrets
                      (ap (λ j. is_deleting j.metadata) (sym same) ∙ e))
                    (λ _ s h. h.1)))

  -- However a reconcile ends, every Secret that it creates, updates or deletes is controlled by the
  -- BucketAccess, and Secrets are deleted only when the BucketAccess is; the driver is called to grant
  -- access only for a living BucketAccess, under the account name "ba-" with its UID, after its
  -- finalizer was stored and the server answered each of its Buckets ready and with the recorded ID;
  -- the driver is called to revoke access only for the account ID of a BucketAccess that is being
  -- deleted; and no Bucket and no BucketClaim is changed. This holds with the documented behaviour of
  -- the finalizer and owner helpers and of the server.
  pub reconcile_access-IsCareful : IsCareful env a (reconcile_access env info (start a)).1.history
  reconcile_access-IsCareful = Ensures-always reconcile-Careful (start a) (refl, tt)

  -- The reconcile of a living BucketAccess of this driver returns no error only when its latest call
  -- stored a status that is ready, has no error, and has the account ID, not empty, of the driver's
  -- answer to a grant. The credentials of that answer are valid ones of the protocol alone, under the
  -- authentication that the BucketAccess has, and so is the info of each bucket that it has, which has a
  -- bucket ID that was asked for. The request asks for a Bucket of each referenced claim, and for no
  -- other: for each bucket ID in it there is a reference to a claim whose Bucket in the status has this
  -- ID, whose access mode is the one in the request, and whose Secret was stored with the variables that
  -- the answer has for the Bucket and the others of the credentials. This holds with the documented
  -- behaviour of the finalizer and owner helpers and of the server.
  pub reconcile_access-IsGranted :
      a.status.driver_name ≡ info.name
      → is_deleting a.metadata ≡ false
      → (reconcile_access env info (start a)).0 ≡ ok tt
      → IsGranted a (reconcile_access env info (start a)).1.history
  reconcile_access-IsGranted ours living success =
      (Ensures-success (living-Granted ours living) (start a) (refl, tt) success).0

  -- The reconcile of a BucketAccess of this driver that is being deleted returns no error only when
  -- its latest call stored the annotation that gives the BucketAccess back to the Controller, after the
  -- driver answered that the recorded account is revoked, unless none is recorded, and after the Secret
  -- of each reference was answered to be missing, is controlled by another owner, or was stored without
  -- its finalizer and deleted.
  pub reconcile_access-IsCleanedUp :
      a.status.driver_name ≡ info.name
      → is_deleting a.metadata ≡ true
      → (reconcile_access env info (start a)).0 ≡ ok tt
      → IsCleanedUp env a (reconcile_access env info (start a)).1.history
  reconcile_access-IsCleanedUp ours deleting success =
      (Ensures-success (deleting-CleanedUp ours deleting) (start a) (refl, tt) success).0
