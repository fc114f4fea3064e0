-- ===== src/ClaimController/Living.antt =====
-- bucketclaim.go: the reconcile of a claim that is not being deleted, step by step.
use container_object_storage.Prelude.{◌≡◌, inl, refl, ◌∙◌, String, Bool, true, false, [], arith}
use container_object_storage.Errors.{Result, ok, err}
use container_object_storage.Api.Meta.{protection_finalizer}
use container_object_storage.Api.Bucket.{Bucket, BucketClaim}
use container_object_storage.Runtime.{IsLawful}
use container_object_storage.World.{Env, update_bucket_claim}
use container_object_storage.World.Action.{State}
use container_object_storage.World.Ensures.{
  Ensures, Ensures-bind, Ensures-on_error, Ensures-call, Ensures-object, Ensures-set_object,
  Ensures-modify, Ensures-weaken, Ensures-when,
}
use container_object_storage.ClaimController.Bound.{
  BelongsTo, IsReservedFor, IsSameClaim, KeepsClaims, IsSameClaim-trans,
}
use container_object_storage.ClaimController.Cautious.{
  HasFinalizer, IsStored, IsBinding, IsAbsent, IsCautious, IsServed,
}
use container_object_storage.ClaimController.{bound_to, update_claim, protect_claim}

module _ (env : Env) (c : BucketClaim) where
  abbrev pub Cautious : State BucketClaim → Type 0
  Cautious s = IsCautious env c s.history

  -- The claim is as it was in what matters, and nothing forbidden was done.
  abbrev pub Known : State BucketClaim → Type 0
  Known s =
      IsSameClaim c s.object
      × (c.status.bound_bucket_name ≡ s.object.status.bound_bucket_name)
      × IsCautious env c s.history

  abbrev pub Protected : State BucketClaim → Type 0
  Protected s = Known s × IsStored env c s.history

  -- What the read of a Bucket allows.
  abbrev pub Usable : Bool → Bucket → State BucketClaim → Type 0
  Usable is_static b s =
      Protected s
      × (is_static ≡ true
          → IsReservedFor b c
          → IsBinding env c (bound_to c.metadata.uid b) s.history)
      × (BelongsTo b c → IsServed env c b s.history)

  abbrev pub Found : String → Bool → Result Bucket → State BucketClaim → Type 0
  Found n is_static (ok b) s = Usable is_static b s
  Found n is_static (err e) s =
      Protected s × (env.is_not_found e ≡ true → IsAbsent env c n s.history)

  abbrev pub Served : Bucket → State BucketClaim → Type 0
  Served b s = Known s × IsServed env c b s.history

  module _ (k : KeepsClaims env) where
    update_claim-stores :
        Ensures
          (λ s. Known s × HasFinalizer env c s.object)
          (update_claim env)
          (λ _. Protected)
          (λ _. Cautious)
    unfolding update_claim
    update_claim-stores = Ensures-bind _ Ensures-object λ o.
        Ensures-bind
          (λ d s.
            (IsSameClaim c d
              × (c.status.bound_bucket_name ≡ d.status.bound_bucket_name)
              × IsCautious env c s.history)
            × IsStored env c s.history)
          (Ensures-call (update_bucket_claim o) _
            (λ d s h e.
              let same : IsSameClaim c o = rw h.1 h.0.0.0 in
              let bound : c.status.bound_bucket_name ≡ o.status.bound_bucket_name =
                rw h.1 h.0.0.1 in
              let p = k.on_object s.history o d e in
              ((IsSameClaim-trans same p.0, bound ∙ p.1, h.0.0.2), inl (rw h.1 h.0.1)))
            (λ x s h e. h.0.0.2))
          (λ d. Ensures-set_object d (λ s h. h))

    present :
        IsLawful env.runtime
        → (o : BucketClaim)
        → (env.runtime.add_finalizer o.metadata.finalizers protection_finalizer).1 ≡ false
        → HasFinalizer env c o
    present l o t =
        ground (arith, l.add_finalizer_unchanged o.metadata.finalizers protection_finalizer)

    pub protect_claim-stores :
        IsLawful env.runtime
        → Ensures
            (λ s. (s.object ≡ c) × (s.history ≡ []))
            (protect_claim env)
            (λ _. Protected)
            (λ _. Cautious)
    unfolding protect_claim
    protect_claim-stores l = Ensures-bind _ Ensures-object λ o.
        Ensures-bind (λ _ s. Known s × HasFinalizer env c s.object × (s.history ≡ []) × (o ≡ c))
          (Ensures-modify _ (λ s h. (
            (
              record {
                same_namespace = rw h.0.0 refl;
                same_name = rw h.0.0 refl;
                same_uid = rw h.0.0 refl;
              },
              rw h.0.0 refl,
              rw h.0.1 tt,
            ),
            l.contains-add_finalizer o.metadata.finalizers _,
            h.0.1,
            h.1 ∙ h.0.0,
          )))
          λ _.
            Ensures-when _
              (λ t.
                Ensures-on_error (λ _. Cautious) _
                  (Ensures-weaken update_claim-stores (λ s h. (h.0, h.1))) (λ e s h. h))
              (λ t s h. (h.0, rw h.2 (rw h.3 at (present l o t))))
