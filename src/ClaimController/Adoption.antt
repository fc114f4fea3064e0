-- ===== src/ClaimController/Adoption.antt =====
-- bucketclaim.go: how the Bucket of a claim that is not being deleted is found, created and bound.
use container_object_storage.Prelude.{
  ◌≡◌, ◌≢◌, inl, refl, sym, ◌∙◌, String, Bool, true, false, not, ◌==◌, [], arith, eq_iff,
}
use container_object_storage.Errors.{Result, ok, err, errorf, non_retryable_error}
use container_object_storage.Api.Bucket.{Bucket, BucketClaim}
use container_object_storage.World.{Env}
use container_object_storage.World.Action.{branch, pure, fail}
use container_object_storage.World.Ensures.{
  Ensures, Ensures-bind, Ensures-pure, Ensures-fail, Ensures-lift, Ensures-branch, Ensures-on_error,
  Ensures-call, Ensures-object, Ensures-weaken,
}
use container_object_storage.ClaimController.Binding.{
  bucket_is_bound_to_claim, generate_intermediate_bucket,
}
use container_object_storage.ClaimController.Bound.{
  IsReservedFor, IsSameClaim, BelongsTo-same, bucket_is_bound_to_claim_cases,
}
use container_object_storage.ClaimController.Cautious.{IsBinding, IsAbsent, IsCreation}
use container_object_storage.ClaimController.{
  bound_to, use_found, bind_bucket, ensure_static_bucket_bound, create_intermediate_bucket,
}
use container_object_storage.ClaimController.Living.{Cautious, Protected, Usable, Found, Served}

module _ (env : Env) (c : BucketClaim) (uid : c.metadata.uid ≢ "") where
  create-Cautious :
      (o : BucketClaim) (n : String) (is_static : Bool)
      → is_static ≡ false
      → c.spec.existing_bucket_name ≡ ""
      → IsSameClaim c o
      → o.status.bound_bucket_name ≡ ""
      → Ensures
          (λ s. Protected env c s × IsAbsent env c n s.history)
          (create_intermediate_bucket env o n)
          (λ b. Usable env c is_static b)
          (λ _. Cautious env c)
  unfolding create_intermediate_bucket
  create-Cautious o n is_static st dyn same bound =
      Ensures-branch _ (λ _. Ensures-fail _ (λ s h. h.0.0.2))
        λ _.
          Ensures-bind
            (λ class s.
              Protected env c s
              × IsCreation env c (generate_intermediate_bucket o class n) s.history)
            (Ensures-call _ _
              (λ class s h e. (
                h.0,
                (
                  n,
                  h.1,
                  record {
                    claim = o;
                    same_claim = same;
                    is_dynamic = dyn;
                    is_unbound = bound;
                    same_class = refl;
                    is_generated = refl;
                  },
                ),
              ))
              (λ x s h e. h.0.0.2))
            λ class.
              Ensures-call _ _
                (λ b s h e. (
                  ((h.0.0.0, h.0.0.1, (h.1, h.0.1, h.0.0.2)), h.0.1),
                  (λ t. absurd (ground arith)),
                  (λ p. inl (refl, p)),
                ))
                (λ x s h e. (h.1, h.0.1, h.0.0.2))

  pub use_found-Cautious :
      (n : String) (is_static : Bool) (r : Result Bucket)
      → is_static ≡ not (c.spec.existing_bucket_name == "")
      → Ensures
          (Found env c n is_static r)
          (use_found env n is_static r)
          (λ b. Usable env c is_static b)
          (λ _. Cautious env c)
  unfolding use_found
  use_found-Cautious n is_static (ok b) st = Ensures-pure _ (λ s h. h)
  use_found-Cautious n is_static (err e) st = Ensures-bind _ Ensures-object λ o.
      Ensures-branch _ (λ t. Ensures-fail _ (λ s h. h.0.0.0.2))
        λ nf.
          Ensures-branch _ (λ t. Ensures-fail _ (λ s h. h.0.0.0.2))
            λ nb.
              Ensures-branch _ (λ t. Ensures-fail _ (λ s h. h.0.0.0.2))
                λ ns. record {
                  at = λ s h.
                      let same : IsSameClaim c o = rw h.1 h.0.0.0.0 in
                      (create-Cautious o n is_static ns
                          (ground (arith, eq_iff c.spec.existing_bucket_name "")) same
                          (ground (arith, eq_iff o.status.bound_bucket_name ""))).at
                        s (h.0.0, h.0.1 (ground arith));
                }

  static-Cautious :
      (b : Bucket) (o : BucketClaim)
      → IsReservedFor b c
      → IsSameClaim c o
      → Ensures
          (Usable env c true b)
          (ensure_static_bucket_bound env b o.metadata.uid)
          (Served env c)
          (λ _. Cautious env c)
  unfolding ensure_static_bucket_bound
  static-Cautious b o r same =
      Ensures-branch _
        (λ t. absurd (
          uid (
            same.same_uid
            ∙ (ground (arith, eq_iff b.spec.bucket_claim_ref.uid o.metadata.uid, r.is_unbound)))))
        λ t.
          Ensures-branch _ (λ t. Ensures-fail _ (λ s h. h.0.0.2))
            λ t.
              Ensures-on_error (λ _. Cautious env c) _
                (Ensures-call _ _
                  (λ d s h e.
                    let p : IsBinding env c (bound_to o.metadata.uid b) s.history =
                      rw (← same.same_uid) (h.1 refl r) in
                    (
                      (h.0.0.0, h.0.0.1, (p, h.0.1, h.0.0.2)),
                      inl (
                        refl,
                        record {
                          same_namespace = r.same_namespace;
                          same_name = r.same_name;
                          same_uid = sym same.same_uid;
                          is_bound = λ z. uid (same.same_uid ∙ z);
                        },
                      ),
                    ))
                  (λ x s h e.
                    let p : IsBinding env c (bound_to o.metadata.uid b) s.history =
                      rw (← same.same_uid) (h.1 refl r) in
                    (p, h.0.1, h.0.0.2)))
                (λ e s h. h)

  decided-Cautious :
      (is_static : Bool) (b : Bucket) (o : BucketClaim) (r : Bool)
      → bucket_is_bound_to_claim b o ≡ ok r
      → IsSameClaim c o
      → Ensures
          (Usable env c is_static b)
          (branch
            (not r)
            (branch is_static
              (ensure_static_bucket_bound env b o.metadata.uid)
              (fail (non_retryable_error (errorf "dynamic Bucket is malformed: %w" []))))
            (pure b))
          (Served env c)
          (λ _. Cautious env c)
  decided-Cautious is_static b o true e same =
      let p = BelongsTo-same b same ((bucket_is_bound_to_claim_cases b o).0.0 e) in
      Ensures-branch _ (λ t. absurd (ground arith)) (λ t. Ensures-pure _ (λ s h. (h.0.0, h.2 p)))
  decided-Cautious is_static b o false e same =
      let q = (bucket_is_bound_to_claim_cases b o).1.0 e in
      let r : IsReservedFor b c = record {
        same_namespace = q.same_namespace ∙ sym same.same_namespace;
        same_name = q.same_name ∙ sym same.same_name;
        is_unbound = q.is_unbound;
      } in
      Ensures-branch _
        (λ t.
          Ensures-branch _
            (λ st. Ensures-weaken (static-Cautious b o r same) (λ s h. (h.0, (λ _. h.1 st), h.2)))
            (λ st. Ensures-fail _ (λ s h. h.0.0.2)))
        (λ t. absurd (ground arith))

  pub bind_bucket-Cautious :
      (is_static : Bool) (b : Bucket)
      → Ensures
          (Usable env c is_static b)
          (bind_bucket env is_static b)
          (Served env c)
          (λ _. Cautious env c)
  unfolding bind_bucket
  bind_bucket-Cautious is_static b = Ensures-bind _ Ensures-object λ o.
      Ensures-bind
        (λ r s. (bucket_is_bound_to_claim b o ≡ ok r) × Usable env c is_static b s × (o ≡ s.object))
        (Ensures-on_error (λ _. Cautious env c) _
          (Ensures-lift _ (λ r e s h. (e, h.0, h.1)) (λ x e s h. h.0.0.0.2)) (λ e s h. h))
        λ r. record {
          at = λ s h. (decided-Cautious is_static b o r h.0 (rw h.2 h.1.0.0.0)).at s h.1;
        }
