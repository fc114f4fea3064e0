-- ===== src/Lifecycle/Revocation.antt =====
-- The calls of sidecar/pkg/reconciler/bucketaccess.go to the driver, over the whole life of a BucketAccess:
-- what is revoked is what was granted.
use container_object_storage.Prelude.{
  ◌≡◌, refl, ap, sym, subst, ◌∙◌, String, true, [], ◌∷◌, inl, inr, ◌≢◌, ◌==◌, false, Bool-cases,
  eq_iff, All, contains,
}
use container_object_storage.Errors.{Result, ok}
use container_object_storage.Errors.Laws.{ok_injective}
use container_object_storage.Api.Access.{BucketAccess}
use container_object_storage.Rpc.{
  DriverGrantBucketAccessRequest, DriverGrantBucketAccessResponse, DriverRevokeBucketAccessRequest,
}
use container_object_storage.Driver.{DriverInfo}
use container_object_storage.World.{
  Env, Call, History, get_bucket_access, driver_grant_bucket_access, driver_revoke_bucket_access,
}
use container_object_storage.World.Recorded.{Recorded}
use container_object_storage.World.Accesses.Protection.{KeepsAccesses}
use container_object_storage.World.Accesses.Handover.{
  Handover, handover, IsGrantFor, IsRevocationFor,
}
use container_object_storage.World.Accesses.Steady.{IsSent, AreSent}
use container_object_storage.World.Action.{State, ◌>>=◌}
use container_object_storage.World.Accesses.{access_reporter}
use container_object_storage.World.Report.{reconcile_found, report, clear_error}
use container_object_storage.Ownership.{managed_by_sidecar}
use container_object_storage.SidecarAccess.{reconcile_access, manage_access, manage_access_request}
use container_object_storage.AccessController.Steadiness.{MeetsRequirements}
use container_object_storage.Lifecycle.{Reach, handover_is_final, manage_access_request-AreSent}

-- A call that a Sidecar makes in a run on a stored BucketAccess.
pub record IsCalledFor (a : BucketAccess) (x : Call) : Type 0 where
  pub env : Env
  pub info : DriverInfo
  pub namespace : String
  pub name : String
  pub keeps : KeepsAccesses env
  pub is_read : env.on_get_bucket_access [] namespace name ≡ ok a
  pub is_recorded : Recorded x (manage_access_request env info namespace name []).1

-- The revocation is for the protocol, the authentication type, the service account and the parameters of
-- the grant, and for each of its Buckets.
pub record Undoes (p : DriverRevokeBucketAccessRequest) (q : DriverGrantBucketAccessRequest)
    : Type 0 where
  pub same_protocol : p.protocol ≡ q.protocol
  pub same_authentication : p.authentication_type ≡ q.authentication_type
  pub same_service_account : p.service_account_name ≡ q.service_account_name
  pub same_parameters : p.parameters ≡ q.parameters
  pub are_revoked : All (λ b. contains p.buckets b.bucket_id ≡ true) q.buckets

manage_access-ignores :
    (env : Env) (info : DriverInfo) (s : State BucketAccess)
    → (s.object.status.driver_name == info.name) ≡ false
    → manage_access env info s ≡ (ok tt, s)
unfolding manage_access reconcile_access ◌>>=◌
manage_access-ignores env info s p = elim (Bool-cases (managed_by_sidecar s.object)) [
  | inl m ↦ rw (m, p) refl
  | inr m ↦ rw m refl
]

-- A Sidecar of another driver only reads the BucketAccess.
manage_access_request-ignores :
    {a : BucketAccess} (env : Env) (info : DriverInfo) (namespace name : String)
    → env.on_get_bucket_access [] namespace name ≡ ok a
    → (a.status.driver_name == info.name) ≡ false
    → (manage_access_request env info namespace name []).1
      ≡ get_bucket_access namespace name (ok a) ∷ []
unfolding manage_access_request reconcile_found report clear_error access_reporter
manage_access_request-ignores {a} env info namespace name e p =
    let h = get_bucket_access namespace name (ok a) ∷ [] in
    let q = manage_access-ignores env info (record { object = a; history = h }) p in
    rw e (ap (λ m. (report (access_reporter env) m).1.history) q)

-- A call to the driver is made by a Sidecar of the driver that was handed over.
calls_own_driver :
    {a : BucketAccess} (x : Call)
    → ((r : Result BucketAccess) (namespace name : String) → x ≢ get_bucket_access namespace name r)
    → (c : IsCalledFor a x) → c.info.name ≡ a.status.driver_name
calls_own_driver {a} x n c = elim (Bool-cases (a.status.driver_name == c.info.name)) [
  | inl p ↦ sym ((eq_iff _ _).0 p)
  | inr p ↦
      let r : Recorded x (get_bucket_access c.namespace c.name (ok a) ∷ []) =
        rw (manage_access_request-ignores c.env c.info c.namespace c.name c.is_read p) at
          c.is_recorded in
      absurd (elim r [ inl e ↦ n (ok a) c.namespace c.name e | inr z ↦ z ])
]

AreSent-Recorded :
    (a : BucketAccess) (x : Call) (h : History) → AreSent a h → Recorded x h → IsSent a x
AreSent-Recorded a x [] s r = absurd r
AreSent-Recorded a x (y ∷ h) s (inl e) = subst (IsSent a) (sym e) s.0
AreSent-Recorded a x (y ∷ h) s (inr r) = AreSent-Recorded a x h s.1 r

IsCalledFor-IsSent : (a : BucketAccess) (x : Call) → IsCalledFor a x → IsSent a x
IsCalledFor-IsSent a x c =
    AreSent-Recorded a x _
      (manage_access_request-AreSent c.env c.info c.namespace c.name c.keeps c.is_read)
      c.is_recorded

Undoes-IsGrantFor :
    (h : Handover) (p : DriverRevokeBucketAccessRequest) (q : DriverGrantBucketAccessRequest)
    → IsRevocationFor h p
    → IsGrantFor h q
    → Undoes p q
Undoes-IsGrantFor h p q r g =
    let authentication : p.authentication_type ≡ q.authentication_type =
      ok_injective (sym r.is_shared.is_authentication ∙ g.is_shared.is_authentication) in
    record {
      same_protocol = ok_injective (sym r.is_shared.is_protocol ∙ g.is_shared.is_protocol);
      same_authentication = authentication;
      same_service_account =
          rw authentication at r.is_shared.is_service_account ∙ sym g.is_shared.is_service_account;
      same_parameters = r.is_shared.are_parameters ∙ sym g.is_shared.are_parameters;
      are_revoked = rw r.are_all g.are_accessed;
    }

-- Of a BucketAccess that was handed over, every revocation that a Sidecar ever asks a driver for undoes
-- every grant that one ever asked for, whatever the Controller, the Sidecars and users did in between: it
-- is asked of the same driver, for the protocol, the authentication type, the service account and the
-- parameters of the grant, and for each of the grant's Buckets.
pub grants_are_undone :
    {a b c : BucketAccess}
    → MeetsRequirements a
    → Reach a b
    → Reach a c
    → (q : DriverGrantBucketAccessRequest) (r : Result DriverGrantBucketAccessResponse)
      (grant : IsCalledFor b (driver_grant_bucket_access q r)) (p : DriverRevokeBucketAccessRequest)
      (u : Result (Unit {0})) (revoke : IsCalledFor c (driver_revoke_bucket_access p u))
    → (revoke.info.name ≡ grant.info.name) × Undoes p q
grants_are_undone {a} {b} {c} met to_b to_c q r grant p u revoke =
    let (k, _) = handover_is_final met to_b in
    let (l, _) = handover_is_final met to_c in
    let same : c.status.driver_name ≡ b.status.driver_name = ap (λ o. o.driver_name) (sym l ∙ k) in
    (
      calls_own_driver (driver_revoke_bucket_access p u) (λ x n m e. cc) revoke
          ∙ same
          ∙ sym (calls_own_driver (driver_grant_bucket_access q r) (λ x n m e. cc) grant),
      Undoes-IsGrantFor (handover a) p q
          (rw l (IsCalledFor-IsSent c (driver_revoke_bucket_access p u) revoke))
          (rw k (IsCalledFor-IsSent b (driver_grant_bucket_access q r) grant)),
    )
