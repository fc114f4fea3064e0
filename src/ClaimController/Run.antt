-- ===== src/ClaimController/Run.antt =====
-- bucketclaim.go: the whole reconcile of a claim that is not being deleted.
use container_object_storage.Prelude.{
  ◌≡◌, ◌≢◌, inl, inr, refl, sym, ◌∙◌, String, Bool, false, not, ◌==◌, [], arith, eq_iff,
}
use container_object_storage.Errors.{ok}
use container_object_storage.Api.Meta.{is_deleting}
use container_object_storage.Api.Bucket.{Bucket, BucketClaim}
use container_object_storage.Runtime.{IsLawful}
use container_object_storage.World.{Env, update_bucket_claim_status}
use container_object_storage.World.Action.{State, start}
use container_object_storage.World.Ensures.{
  Ensures, Ensures-bind, Ensures-fail, Ensures-lift, Ensures-branch, Ensures-on_error, Ensures-call,
  Ensures-object, Ensures-set_object, Ensures-modify, Ensures-try, Ensures-loosen, Ensures-when,
  Ensures-always, Ensures-success,
}
use container_object_storage.ClaimController.Binding.{determine_bucket_name}
use container_object_storage.ClaimController.Bound.{
  IsSameClaim, KeepsClaims, IsSameClaim-trans, determine_bucket_name_iff,
}
use container_object_storage.ClaimController.Cautious.{IsCautious, IsServed, IsReport, IsBoundTo}
use container_object_storage.ClaimController.Living.{Cautious, Found, Served, protect_claim-stores}
use container_object_storage.ClaimController.Adoption.{use_found-Cautious, bind_bucket-Cautious}
use container_object_storage.ClaimController.{
  update_claim_status, bind_claim, report_bucket, bind, reconcile_claim,
}

module _ (env : Env) (c : BucketClaim) where
  -- The claim is the same one, bound to the name, and the Bucket was served.
  abbrev Bound : String → Bucket → State BucketClaim → Type 0
  Bound n b s =
      IsSameClaim c s.object
      × (s.object.status.bound_bucket_name ≡ n)
      × IsCautious env c s.history
      × IsServed env c b s.history

  abbrev Finished : String → State BucketClaim → Type 0
  Finished n s = IsBoundTo env c n s.history × IsCautious env c s.history

  module _ (k : KeepsClaims env) where
    update_claim_status-binds :
        (n : String) (b : Bucket)
        → Ensures (Bound n b) (update_claim_status env) (λ _. Bound n b) (λ _. Cautious env c)
    unfolding update_claim_status
    update_claim_status-binds n b = Ensures-bind _ Ensures-object λ o.
        Ensures-bind
          (λ d s.
            IsSameClaim c d
            × (d.status.bound_bucket_name ≡ n)
            × IsCautious env c s.history
            × IsServed env c b s.history)
          (Ensures-call (update_bucket_claim_status o) _
            (λ d s h e.
              let p = k.on_status s.history o d e in
              let same : IsSameClaim c o = rw h.1 h.0.0 in
              let bound : o.status.bound_bucket_name ≡ n = rw h.1 h.0.1 in
              (IsSameClaim-trans same p.0, sym p.1 ∙ bound, h.0.2, h.0.3))
            (λ x s h e. h.0.2))
          (λ d. Ensures-set_object d (λ s h. h))

    bind_claim-binds :
        (n : String) (b : Bucket)
        → determine_bucket_name c ≡ ok n
        → Ensures (Served env c b) (bind_claim env n) (λ _. Bound n b) (λ _. Cautious env c)
    unfolding bind_claim
    bind_claim-binds n b e = Ensures-bind _ Ensures-object λ o.
        Ensures-when _
          (λ t.
            Ensures-bind (λ _. Bound n b)
              (Ensures-modify _ (λ s h. (
                record {
                  same_namespace = h.0.0.0.same_namespace;
                  same_name = h.0.0.0.same_name;
                  same_uid = h.0.0.0.same_uid;
                },
                refl,
                h.0.0.2,
                h.0.1,
              )))
              λ _.
                Ensures-on_error (λ _. Cautious env c) _ (update_claim_status-binds n b)
                  (λ x s h. h))
          (λ t s h.
            let u = rw h.1 at t in
            let d = ((determine_bucket_name_iff c n).0 e).1 in
            let q : s.object.status.bound_bucket_name ≡ n = elim d [
              | inl z ↦
                  absurd
                    (ground (arith, eq_iff s.object.status.bound_bucket_name "", sym h.0.0.1 ∙ z))
              | inr z ↦ sym h.0.0.1 ∙ z
            ] in
            (h.0.0.0, q, h.0.0.2, h.0.1))

    report_bucket-reports :
        (n : String) (b : Bucket)
        → Ensures (Bound n b) (report_bucket env b) (λ _. Finished n) (λ _. Cautious env c)
    unfolding report_bucket update_claim_status
    report_bucket-reports n b =
        Ensures-branch _ (λ _. Ensures-fail _ (λ s h. h.2))
          λ i.
            Ensures-branch _ (λ _. Ensures-fail _ (λ s h. h.2))
              λ p.
                Ensures-bind (λ _ s. Bound n b s × IsReport env c b s.object)
                  (Ensures-modify _ (λ s h. (
                    (
                      record {
                        same_namespace = h.0.same_namespace;
                        same_name = h.0.same_name;
                        same_uid = h.0.same_uid;
                      },
                      h.1,
                      h.2,
                      h.3,
                    ),
                    record {
                      has_id = λ z. ground (arith, eq_iff b.status.bucket_id "");
                      has_protocols = p;
                      same_readiness = refl;
                      same_protocols = refl;
                      no_error = refl;
                    },
                  )))
                  λ _. Ensures-bind _ Ensures-object λ o.
                    Ensures-bind (λ _. Finished n)
                      (Ensures-call (update_bucket_claim_status o) _
                        (λ d s h e.
                          ((rw h.1 h.0.0.0, rw h.1 h.0.0.1, (b, h.0.0.3, rw h.1 h.0.1)), h.0.0.2))
                        (λ x s h e. h.0.0.2))
                      (λ d. Ensures-set_object d (λ s h. h))

    module _ (lawful : IsLawful env.runtime) (uid : c.metadata.uid ≢ "") where
      bind-binds :
          (n : String) (is_static : Bool)
          → determine_bucket_name c ≡ ok n
          → is_static ≡ not (c.spec.existing_bucket_name == "")
          → Ensures
              (λ s. (s.object ≡ c) × (s.history ≡ []))
              (bind env n is_static)
              (λ _. Finished n)
              (λ _. Cautious env c)
      unfolding bind
      bind-binds n is_static e st = Ensures-bind _ (protect_claim-stores env c k lawful) λ _.
          Ensures-bind (Found env c n is_static)
            (Ensures-try _ (
              Ensures-call _ _ (λ b s h a. (h, (λ t r. (r, refl)), (λ p. inl (refl, p))))
                (λ x s h a. (h, (λ t. (refl, t))))))
            λ r. Ensures-bind _ (use_found-Cautious env c uid n is_static r st) λ b.
              Ensures-bind _ (bind_bucket-Cautious env c uid is_static b)
                λ d. Ensures-bind _ (bind_claim-binds n d e) λ _. report_bucket-reports n d

      reconcile_claim-binds :
          is_deleting c.metadata ≡ false
          → Ensures
              (λ s. (s.object ≡ c) × (s.history ≡ []))
              (reconcile_claim env)
              (λ _ s.
                ((n : String) × (determine_bucket_name c ≡ ok n) × IsBoundTo env c n s.history)
                × IsCautious env c s.history)
              (λ _. Cautious env c)
      unfolding reconcile_claim
      reconcile_claim-binds l = Ensures-bind _ Ensures-object λ o.
          Ensures-bind
            (λ n s. (determine_bucket_name c ≡ ok n) × (o ≡ c) × (s.object ≡ c) × (s.history ≡ []))
            (Ensures-on_error (λ _. Cautious env c) _
              (Ensures-lift _ (λ n e s h. (rw (← h.0.0) (rw (← h.1) e), h.1 ∙ h.0.0, h.0.0, h.0.1))
                (λ x e s h. rw h.0.1 tt))
              (λ e s h. h))
            λ n.
              Ensures-branch _
                (λ t. record { at = λ s h. let t' = rw h.1 at t in absurd (ground arith) })
                (λ t. record {
                  at = λ s h.
                      (Ensures-loosen (bind-binds n _ h.0 (rw h.1 refl))
                          (λ a z p. ((n, h.0, p.0), p.1))).at
                        s (h.2, h.3);
                })

      -- Where the server keeps the identity and the binding of claims, the finalizer helpers do what
      -- they document, and the claim has a UID: while the claim is not being deleted, no Bucket is
      -- deleted; a Bucket is created only as generated for this claim, when it asks for no existing
      -- Bucket, is bound to none, and there was none of the name; a Bucket is updated only to write
      -- the claim's UID into one that was just read, is reserved for the claim and bound to none;
      -- and all this only after the protection finalizer of the claim is stored.
      pub reconcile_claim-IsCautious :
          is_deleting c.metadata ≡ false
          → IsCautious env c (reconcile_claim env (start c)).1.history
      reconcile_claim-IsCautious l =
          Ensures-always (Ensures-loosen (reconcile_claim-binds l) (λ a s h. h.1)) (start c)
            (refl, refl)

      -- Where the server keeps the identity and the binding of claims, the finalizer helpers do what
      -- they document and the claim has a UID, a reconcile that succeeds on a claim that is not
      -- being deleted has, as its last call, stored the claim as bound to its Bucket's name, with
      -- the readiness and the protocols of a Bucket that the server answered with, that belongs to
      -- the claim and has an ID, and with no error.
      pub reconcile_claim-IsBoundTo :
          is_deleting c.metadata ≡ false
          → (reconcile_claim env (start c)).0 ≡ ok tt
          → (n : String) × (determine_bucket_name c ≡ ok n)
            × IsBoundTo env c n (reconcile_claim env (start c)).1.history
      reconcile_claim-IsBoundTo l e =
          (Ensures-success (reconcile_claim-binds l) (start c) (refl, refl) e).0
