-- ===== src/AccessController/Deletion/Loop.antt =====
-- bucketaccess.go of the Controller: the loop that takes the marks away.
use container_object_storage.Prelude.{
  ◌≡◌, ◌⊎◌, inl, inr, refl, subst, String, Option, none, some, List, [], ◌∷◌, ◌==◌, arith, All,
  Bool-cases, Option-cases, HasUniqueKeys, Entries-dict_get, dict_get,
}
use container_object_storage.Errors.{Error, ok}
use container_object_storage.Api.Bucket.{BucketClaim}
use container_object_storage.Api.Access.{BucketAccess}
use container_object_storage.World.{Env, Call, History, update_bucket_claim}
use container_object_storage.World.Action.{State}
use container_object_storage.World.Ensures.{
  Ensures, Ensures-bind, Ensures-pure, Ensures-branch, Ensures-call, Ensures-check, Ensures-try,
  Ensures-weaken,
}
use container_object_storage.World.Ensures.Loop.{Ensures-range}
use container_object_storage.AccessController.Marks.{
  Claims, unmarked, has_reference, collect_unmarked, unmark_claim, unmark_unaccessed_bucket_claims,
}
use container_object_storage.AccessController.References.{
  has_reference-iff-Refers, has_bucket_access_references-iff-IsReferenced,
}
use container_object_storage.AccessController.Gather.{AreRead, AreMissing, Covers}
use container_object_storage.Errors.Laws.{append_ne_nil, error_of-none}
use container_object_storage.AccessController.Deletion.{IsListed, IsDone, AreLetGo, IsCautious}

module _ (env : Env) (a : BucketAccess) where
  -- The BucketAccess is as it was read.
  abbrev pub Untouched : State BucketAccess → Type 0
  Untouched s = (s.object ≡ a) × IsCautious env a s.history

  IsDone-later :
      (x : Call) (l : List BucketAccess) (c : BucketClaim) (h : History)
      → IsDone env a l c h
      → IsDone env a l c (x ∷ h)
  IsDone-later x l c h (inl p) = inl p
  IsDone-later x l c h (inr (inl p)) = inr (inl p)
  IsDone-later x l c h (inr (inr (d, p))) = inr (inr (d, inr p))

  -- What the claims' map says of the server.
  abbrev pub AreAnswered : List BucketAccess → Claims → History → Type 0
  AreAnswered l m h = AreRead a m h × AreMissing env a m h × IsListed env a l h

  pub AreAnswered-later :
      (x : Call) (l : List BucketAccess) (m : Claims) (h : History)
      → AreAnswered l m h
      → AreAnswered l m (x ∷ h)
  AreAnswered-later x l m h (g, y, p) =
      ((λ n c e. inr (g n c e)), (λ n e. let (z, q, t) = y n e in (z, inr q, t)), inr p)

  module _ (l : List BucketAccess) (m : Claims) where
    -- Nothing is left to do for a claim, or the loop has still to come to it.
    abbrev AreDone : Claims → History → Type 0
    AreDone rest h =
        (n : String) (c : BucketClaim)
        → dict_get m n ≡ some (some c)
        → IsDone env a l c h ⊎ (dict_get rest n ≡ some (some c))

    AreDone-later : (x : Call) (rest : Claims) (h : History) → AreDone rest h → AreDone rest (x ∷ h)
    AreDone-later x rest h k =
        λ n c e. elim (k n c e) [ inl p ↦ inl (IsDone-later x l c h p) | inr p ↦ inr p ]

    AreDone-head :
        (n : String) (v : Option BucketClaim) (rest : Claims) (h : History)
        → AreDone ((n, v) ∷ rest) h
        → ((c : BucketClaim) → v ≡ some c → IsDone env a l c h)
        → AreDone rest h
    unfolding dict_get
    AreDone-head n v rest h k p = λ j c e. elim (k j c e) [
      | inl q ↦ inl q
      | inr q ↦ elim (Bool-cases (n == j)) [
        | inl t ↦
            let q' : some v ≡ some (some c) = rw t at q in let r : v ≡ some c = cc in inl (p c r)
        | inr t ↦ inr (rw t at q)
      ]
    ]

    abbrev Unmarking : Claims → List Error → State BucketAccess → Type 0
    Unmarking rest errs s =
        Untouched s
        × AreAnswered l m s.history
        × All (λ e. dict_get m e.0 ≡ some e.1) rest
        × (errs ≡ [] → AreDone rest s.history)

    Unmarking-head :
        (n : String) (c : BucketClaim) (rest : Claims) (errs : List Error) (s : State BucketAccess)
        → Unmarking ((n, some c) ∷ rest) errs s
        → IsDone env a l c s.history
        → Unmarking rest errs s
    Unmarking-head n c rest errs s (b, g, y, k) p = (
      b,
      g,
      y.1,
      λ z.
          AreDone-head n (some c) rest s.history (k z)
            (λ d e. let q : c ≡ d = cc in subst (λ i. IsDone env a l i s.history) q p),
    )

    unmark_claim-Unmarking :
        (e : String × Option BucketClaim) (rest : Claims) (errs : List Error)
        → Ensures
            (Unmarking (e ∷ rest) errs)
            (unmark_claim env l a.metadata.name e errs)
            (Unmarking rest)
            (λ _ s. IsCautious env a s.history)
    unfolding unmark_claim collect_unmarked
    unmark_claim-Unmarking (n, none) rest errs =
        Ensures-pure _
          (λ s (b, g, y, k). (b, g, y.1, λ z. AreDone-head n none rest s.history (k z) (λ c e. cc)))
    unmark_claim-Unmarking (n, some c) rest errs =
        let searched =
          has_bucket_access_references-iff-IsReferenced c.metadata.name l a.metadata.name in
        Ensures-branch _
          (λ t. Ensures-pure _ (λ s h. Unmarking-head n c rest errs s h (inl (ground (arith, t)))))
          λ t.
            Ensures-branch _
              (λ u.
                Ensures-pure _ (λ s h. Unmarking-head n c rest errs s h (inr (inl (searched.0 u)))))
              λ u.
                Ensures-bind (λ r. Unmarking rest (collect_unmarked env r errs))
                  (Ensures-try _ (
                    Ensures-call _ _
                      (λ d s (b, g, y, k) e.
                        let x = update_bucket_claim (unmarked c) (ok d) in
                        Unmarking-head n c rest errs (record s { history = x ∷ s.history })
                          (
                            (
                              b.0,
                              (
                                (
                                  n,
                                  c,
                                  l,
                                  g.0 n c y.0,
                                  ground (arith, t),
                                  refl,
                                  g.2,
                                  λ w. let z = searched.1 w in cc,
                                ),
                                b.1,
                              ),
                            ),
                            AreAnswered-later x l m s.history g,
                            y,
                            λ z. AreDone-later x _ s.history (k z),
                          )
                          (inr (inr (d, inl refl))))
                      (λ x s (b, g, y, k) e. (
                        (
                          b.0,
                          (
                            (
                              n,
                              c,
                              l,
                              g.0 n c y.0,
                              ground (arith, t),
                              refl,
                              g.2,
                              λ w. let z = searched.1 w in cc,
                            ),
                            b.1,
                          ),
                        ),
                        AreAnswered-later _ l m s.history g,
                        y.1,
                        λ z. absurd (append_ne_nil errs x z),
                      ))))
                  λ r. Ensures-pure _ (λ s h. h)

    pub unmark-lets_go :
        HasUniqueKeys m
        → Covers a.spec.bucket_claims m []
        → Ensures
            (λ s. Untouched s × AreAnswered l m s.history)
            (unmark_unaccessed_bucket_claims env m l a.metadata.name)
            (λ _ s. Untouched s × AreLetGo env a s.history)
            (λ _ s. IsCautious env a s.history)
    unfolding unmark_unaccessed_bucket_claims has_reference dict_get
    unmark-lets_go u covers =
        Ensures-bind (Unmarking [])
          (Ensures-weaken
            (Ensures-range Unmarking (unmark_claim env l a.metadata.name) unmark_claim-Unmarking m
              [])
            (λ s h. (h.0, h.1, Entries-dict_get m u, λ z n c e. inr e)))
          λ errs.
            Ensures-check _
              (λ e s (b, g, _, k). (
                b,
                (
                  l,
                  g.2,
                  λ n r. elim (Option-cases (dict_get m n)) [
                    | inl p ↦
                        let q = covers n ((has_reference-iff-Refers n a.spec.bucket_claims).1 r) in
                        let q' = rw p at q in cc
                    | inr (none, p) ↦ inl (g.1 n p)
                    | inr (some c, p) ↦ elim (k (error_of-none _ errs e) n c p) [
                      | inl t ↦ inr (c, g.0 n c p, t)
                      | inr t ↦ cc
                    ]
                  ],
                ),
              ))
              (λ x e s h. h.0.1)
