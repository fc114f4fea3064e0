-- ===== src/AccessController/Marking.antt =====
-- bucketaccess.go of the Controller: the loop that marks the claims.
use container_object_storage.Prelude.{
  ◌≡◌, ◌⊎◌, inl, inr, refl, sym, ap, subst, String, false, Option, none, some, List, [], ◌∷◌, ◌==◌,
  arith, eq_iff, eq_refl, Bool-cases, HasUniqueKeys, dict_get, dict_set, dict_get-dict_set,
  dict_set-HasUniqueKeys,
}
use container_object_storage.Errors.{Error, Result, ok, err}
use container_object_storage.Api.Bucket.{BucketClaim}
use container_object_storage.Api.Access.{BucketAccess, BucketClaimAccess}
use container_object_storage.World.{Env, Call, History, update_bucket_claim}
use container_object_storage.World.Action.{State}
use container_object_storage.World.Ensures.{
  Ensures, Ensures-bind, Ensures-pure, Ensures-branch, Ensures-call, Ensures-check, Ensures-try,
  Ensures-weaken,
}
use container_object_storage.World.Ensures.Loop.{Ensures-range}
use container_object_storage.AccessController.Marks.{
  Claims, marked, is_marked, has_reference, collect_marked, mark_claim,
  mark_all_bucket_claims_as_accessed,
}
use container_object_storage.AccessController.Evidence.{
  IsRead, IsClaimOf, IsMarked, IsClaimOf-later, IsMarked-later,
}
use container_object_storage.AccessController.Gather.{
  Base, Tidy, AreRead, Covers, later, cover-dict_set,
}
use container_object_storage.Errors.Laws.{append_ne_nil, error_of-none}

module _ (a : BucketAccess) where
  abbrev AreKnown : Claims → History → Type 0
  AreKnown m h = (n : String) (c : BucketClaim) → dict_get m n ≡ some (some c) → IsClaimOf a n c h

  -- A claim is marked, or the loop has still to come to it.
  abbrev ArePending : Claims → Claims → History → Type 0
  ArePending m rest h =
      (n : String) (c : BucketClaim)
      → dict_get m n ≡ some (some c)
      → IsMarked a n h ⊎ ((d : BucketClaim) × (dict_get rest n ≡ some (some d)))

  abbrev Marked : List BucketClaimAccess → Claims → Claims → History → Type 0
  Marked refs rest m h = AreKnown m h × ArePending m rest h × Covers refs m []

  -- Every reference has an entry; the claims in the map are the server's, and marked there.
  abbrev pub AreClaimed : List BucketClaimAccess → Claims → History → Type 0
  AreClaimed refs m h =
      AreKnown m h
      × ((n : String) (c : BucketClaim) → dict_get m n ≡ some (some c) → IsMarked a n h)
      × Covers refs m []

  pub AreClaimed-later :
      (x : Call) (refs : List BucketClaimAccess) (m : Claims) (h : History)
      → AreClaimed refs m h
      → AreClaimed refs m (x ∷ h)
  AreClaimed-later x refs m h (k, g, v) =
      ((λ n c e. IsClaimOf-later a x h (k n c e)), (λ n c e. IsMarked-later a x h (g n c e)), v)

  AreRead-tail :
      (n : String) (v : Option BucketClaim) (rest : Claims) (h : History)
      → dict_get rest n ≡ none
      → AreRead a ((n, v) ∷ rest) h
      → AreRead a rest h
  unfolding dict_get
  AreRead-tail n v rest h u g = λ k c e. g k c (ground (arith, eq_iff n k, e, u))

  Marked-head :
      (refs : List BucketClaimAccess) (n : String) (v : Option BucketClaim) (rest m : Claims)
      (h : History)
      → Marked refs ((n, v) ∷ rest) m h
      → ((c : BucketClaim) → v ≡ some c → IsMarked a n h)
      → Marked refs rest m h
  unfolding dict_get
  Marked-head refs n v rest m h (k, g, z) p = (
    k,
    λ j c e. elim (g j c e) [
      | inl q ↦ inl q
      | inr (d, q) ↦ elim (Bool-cases (n == j)) [
        | inl t ↦
            let q' : some v ≡ some (some d) = rw t at q in
            let r : v ≡ some d = cc in inl (rw (← (eq_iff n j).0 t) (p d r))
        | inr t ↦ inr (d, rw t at q)
      ]
    ],
    z,
  )

  Marked-stored :
      (refs : List BucketClaimAccess) (n : String) (c d : BucketClaim) (rest m : Claims)
      (h : History)
      → IsRead a n c h
      → Marked refs ((n, some c) ∷ rest) m h
      → Marked refs rest (dict_set m n (some d)) (update_bucket_claim (marked c) (ok d) ∷ h)
  unfolding dict_get has_reference
  Marked-stored refs n c d rest m h r (k, g, z) =
      let x = update_bucket_claim (marked c) (ok d) in
      (
        λ j e p. elim (Bool-cases (n == j)) [
          | inl t ↦
              let q : some (some d) ≡ some (some e) =
                ground (arith, dict_get-dict_set m n j (some d)) in
              let q' : d ≡ e = cc in
              inr (
                c,
                inr (subst (λ i. IsRead a i c h) ((eq_iff n j).0 t) r),
                inl (ap (λ i. update_bucket_claim (marked c) (ok i)) (sym q')),
              )
          | inr t ↦ IsClaimOf-later a x h (k j e (ground (arith, dict_get-dict_set m n j (some d))))
        ],
        λ j e p. elim (Bool-cases (n == j)) [
          | inl t ↦
              inl (inr (c, d, inr (subst (λ i. IsRead a i c h) ((eq_iff n j).0 t) r), inl refl))
          | inr t ↦ elim (g j e (ground (arith, dict_get-dict_set m n j (some d)))) [
            | inl q ↦ inl (IsMarked-later a x h q)
            | inr (b, q) ↦ inr (b, rw t at q)
          ]
        ],
        λ j e. cover-dict_set m n j (some d) false (ground (arith, z j e)),
      )

module _ (env : Env) (a : BucketAccess) where
  abbrev Marking :
      List BucketClaimAccess → Claims → Claims × List Error → State BucketAccess → Type 0
  Marking refs rest v s =
      Base env a s
      × HasUniqueKeys rest
      × AreRead a rest s.history
      × HasUniqueKeys v.0
      × (v.1 ≡ [] → Marked a refs rest v.0 s.history)

  -- What the answer to the update of a claim leaves.
  collect_marked-Marking :
      (refs : List BucketClaimAccess) (n : String) (c : BucketClaim) (rest m : Claims)
      (errs : List Error) (r : Result BucketClaim) (s : State BucketAccess)
      → Marking refs ((n, some c) ∷ rest) (m, errs) s
      → Marking refs rest
          (collect_marked env n c r (m, errs))
          (record s { history = update_bucket_claim (marked c) r ∷ s.history })
  unfolding collect_marked dict_get
  collect_marked-Marking refs n c rest m errs (ok d) s (b, u, g, w, k) =
      let r = g n c (rw eq_refl refl) in
      (
        later env a _ s b ((n, c, r, refl), b.1, b.2),
        u.1,
        (λ j x p. inr (AreRead-tail a n (some c) rest s.history u.0 g j x p)),
        dict_set-HasUniqueKeys m n (some d) w,
        λ z. Marked-stored a refs n c d rest m s.history r (k z),
      )
  collect_marked-Marking refs n c rest m errs (err x) s (b, u, g, w, k) =
      let r = g n c (rw eq_refl refl) in
      (
        later env a _ s b ((n, c, r, refl), b.1, b.2),
        u.1,
        (λ j y p. inr (AreRead-tail a n (some c) rest s.history u.0 g j y p)),
        dict_set-HasUniqueKeys m n (some (marked c)) w,
        λ z. absurd (append_ne_nil errs x z),
      )

  mark_claim-Marking :
      (refs : List BucketClaimAccess) (e : String × Option BucketClaim) (rest : Claims)
      (v : Claims × List Error)
      → Ensures
          (Marking refs (e ∷ rest) v)
          (mark_claim env e v)
          (Marking refs rest)
          (λ _. Tidy env a)
  unfolding mark_claim collect_marked dict_get
  mark_claim-Marking refs (n, none) rest v = Ensures-pure v (λ s (b, u, g, w, k). (
    b,
    u.1,
    AreRead-tail a n none rest s.history u.0 g,
    w,
    λ z. Marked-head a refs n none rest v.0 s.history (k z) (λ c e. cc),
  ))
  mark_claim-Marking refs (n, some c) rest (m, errs) =
      Ensures-branch (is_marked c)
        (λ t.
          Ensures-pure (m, errs)
            (λ s (b, u, g, w, k). (
              b,
              u.1,
              AreRead-tail a n (some c) rest s.history u.0 g,
              w,
              λ z.
                  Marked-head a refs n (some c) rest m s.history (k z)
                    (λ d e. inl (c, g n c (rw eq_refl refl), t)),
            )))
        λ t.
          Ensures-bind (λ r s. Marking refs rest (collect_marked env n c r (m, errs)) s)
            (Ensures-try _ (
              Ensures-call _ _ (λ d s h e. collect_marked-Marking refs n c rest m errs (ok d) s h)
                (λ x s h e. collect_marked-Marking refs n c rest m errs (err x) s h)))
            λ r. Ensures-pure _ (λ s h. h)

  pub mark_all-claims :
      (refs : List BucketClaimAccess) (claims : Claims)
      → Ensures
          (λ s.
            Base env a s
            × HasUniqueKeys claims
            × AreRead a claims s.history
            × Covers refs claims [])
          (mark_all_bucket_claims_as_accessed env claims)
          (λ m s. Base env a s × HasUniqueKeys m × AreClaimed a refs m s.history)
          (λ _. Tidy env a)
  unfolding mark_all_bucket_claims_as_accessed dict_get
  mark_all-claims refs claims =
      Ensures-bind (Marking refs [])
        (Ensures-weaken
          (Ensures-range (Marking refs) (mark_claim env) (mark_claim-Marking refs) claims
            (claims, []))
          (λ s (b, u, g, k).
            (b, u, g, u, λ z. ((λ n c e. inl (g n c e)), (λ n c e. inr (c, e)), k))))
        λ v.
          Ensures-bind (λ _ s. Base env a s × HasUniqueKeys v.0 × AreClaimed a refs v.0 s.history)
            (Ensures-check _
              (λ e s (b, u, g, w, k).
                let (known, pending, z) = k (error_of-none _ v.1 e) in
                (b, w, (known, (λ n c p. elim (pending n c p) [ inl q ↦ q | inr (d, q) ↦ cc ]), z)))
              (λ x e s h. h.0.2))
            λ _. Ensures-pure _ (λ s h. h)
