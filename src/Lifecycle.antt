-- ===== src/Lifecycle.antt =====
-- A BucketAccess over its whole life: the runs of `Reconcile` in controller/pkg/reconciler/bucketaccess.go
-- and in sidecar/pkg/reconciler/bucketaccess.go and the changes of users, in any order and number. A run
-- reads the BucketAccess that is stored, and an update that succeeds replaces it: the server refuses an
-- update of an object that another writer changed in between.
pub mod Revocation
use container_object_storage.Prelude.{◌≡◌, refl, ap, sym, ◌∙◌, String, true, [], ◌∷◌, All, contains}
use container_object_storage.Errors.{ok, err}
use container_object_storage.Errors.Laws.{ok_injective}
use container_object_storage.Api.Access.{BucketAccess}
use container_object_storage.Rpc.{DriverGrantBucketAccessRequest, DriverRevokeBucketAccessRequest}
use container_object_storage.Driver.{DriverInfo}
use container_object_storage.World.{
  Env, Call, History, get_bucket_access, update_bucket_access, update_bucket_access_status,
  driver_grant_bucket_access, driver_revoke_bucket_access,
}
use container_object_storage.World.Recorded.{Recorded}
use container_object_storage.World.Accesses.Protection.{IsSameAccess, KeepsAccesses}
use container_object_storage.World.Accesses.Handover.{
  handover, bucket_ids, IsShared, IsGrantFor, IsRevocationFor,
}
use container_object_storage.World.Accesses.Steady.{
  IsKept, IsSent, AreSent, same_handover, reconcile_found-AreSent,
}
use container_object_storage.SidecarAccess.{manage_access, manage_access_request}
use container_object_storage.SidecarAccess.Steadiness.{manage_access-Steady}
use container_object_storage.AccessController.{control_access, control_access_request}
use container_object_storage.AccessController.Steadiness.{
  MeetsRequirements, IsKept-MeetsRequirements, control_access-Steady,
}

-- The BucketAccess that is stored after a history.
abbrev pub stored : BucketAccess → History → BucketAccess
stored a [] = a
stored a (update_bucket_access b (ok c) ∷ h) = c
stored a (update_bucket_access_status b (ok c) ∷ h) = c
stored a (_ ∷ h) = stored a h

pub data Step : BucketAccess → BucketAccess → Type 0 where
  -- A run of the Controller.
  controls :
      {a : BucketAccess} (env : Env) (namespace name : String)
      → KeepsAccesses env
      → env.on_get_bucket_access [] namespace name ≡ ok a
      → Step a (stored a (control_access_request env namespace name []).1)
  -- A run of a Sidecar.
  manages :
      {a : BucketAccess} (env : Env) (info : DriverInfo) (namespace name : String)
      → KeepsAccesses env
      → env.on_get_bucket_access [] namespace name ≡ ok a
      → Step a (stored a (manage_access_request env info namespace name []).1)
  -- A user changes the metadata: the spec is immutable, and users do not write the status.
  edits : {a b : BucketAccess} → IsSameAccess a b → a.status ≡ b.status → Step a b

pub data Reach (a : BucketAccess) : BucketAccess → Type 0 where
  here : Reach a a
  next : {b c : BucketAccess} → Reach a b → Step b c → Reach a c

stored-IsKept : (a : BucketAccess) (h : History) → AreSent a h → IsKept a (stored a h)
stored-IsKept a [] s = refl
stored-IsKept a (update_bucket_access b (ok c) ∷ h) s = s.0.1
stored-IsKept a (update_bucket_access_status b (ok c) ∷ h) s = s.0.1
stored-IsKept a (_ ∷ h) s = stored-IsKept a h s.1

control_access_request-AreSent :
    {a : BucketAccess} (env : Env) (namespace name : String)
    → KeepsAccesses env
    → env.on_get_bucket_access [] namespace name ≡ ok a
    → MeetsRequirements a
    → AreSent a (control_access_request env namespace name []).1
unfolding control_access_request
control_access_request-AreSent {a} env namespace name keeps e met = rw e (
    reconcile_found-AreSent env keeps a (control_access env) _ (control_access-Steady env keeps met)
      (tt, tt))

pub manage_access_request-AreSent :
    {a : BucketAccess} (env : Env) (info : DriverInfo) (namespace name : String)
    → KeepsAccesses env
    → env.on_get_bucket_access [] namespace name ≡ ok a
    → AreSent a (manage_access_request env info namespace name []).1
unfolding manage_access_request
manage_access_request-AreSent {a} env info namespace name keeps e = rw e (
    reconcile_found-AreSent env keeps a (manage_access env info) _
      (manage_access-Steady env keeps info) (tt, tt))

Step-IsKept : {a b : BucketAccess} → MeetsRequirements a → Step a b → IsKept a b
Step-IsKept met (controls {a} env namespace name keeps e) =
    stored-IsKept a _ (control_access_request-AreSent env namespace name keeps e met)
Step-IsKept met (manages {a} env info namespace name keeps e) =
    stored-IsKept a _ (manage_access_request-AreSent env info namespace name keeps e)
Step-IsKept met (edits same status) = same_handover (same, status)

-- From the moment on when the status has what the Sidecar requires, every sequence of runs of the
-- Controller and of Sidecars and of changes by users leaves the identity, the spec, the driver name, the
-- authentication type, the parameters and the accessed Buckets as they are, and the requirements met.
pub handover_is_final :
    {a b : BucketAccess} → MeetsRequirements a → Reach a b → IsKept a b × MeetsRequirements b
handover_is_final met here = (refl, met)
handover_is_final {a} met (next {b} {c} r s) =
    let (k, m) = handover_is_final met r in
    let l = Step-IsKept m s in (k ∙ l, IsKept-MeetsRequirements b c l m)
