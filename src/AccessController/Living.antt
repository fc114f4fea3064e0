-- ===== src/AccessController/Living.antt =====
-- bucketaccess.go of the Controller: what a reconcile does with a BucketAccess that is not being
-- deleted.
use container_object_storage.Prelude.{
  ◌≡◌, refl, sym, String, ◌∷◌, ap, ◌∙◌, Bool, true, false, not, none, List, is_empty, HasUniqueKeys,
}
use container_object_storage.Errors.{Result, ok}
use container_object_storage.Api.Bucket.{BucketClaim}
use container_object_storage.Api.Meta.{is_deleting}
use container_object_storage.Api.Access.{BucketAccess, BucketClaimAccess}
use container_object_storage.Runtime.{IsLawful}
use container_object_storage.Ownership.{sidecar_requirements_present}
use container_object_storage.Ownership.Laws.{sidecar_requirements_present_cases}
use container_object_storage.World.{Env, Call, get_bucket_claim}
use container_object_storage.World.Action.{State, object, start}
use container_object_storage.World.Ensures.Steps.{Ensures-lifted, Ensures-checked}
use container_object_storage.World.Ensures.{
  Ensures, Ensures-bind, Ensures-branch, Ensures-object, Ensures-weaken, Ensures-success,
  Ensures-always, Ensures-loosen, Ensures-given,
}
use container_object_storage.AccessController.Marks.{get_all_bucket_claims}
use container_object_storage.AccessController.Evidence.{IsHandedOver, IsTidy}
use container_object_storage.World.Accesses.Protection.{KeepsAccesses}
use container_object_storage.AccessController.Gather.{Base, Tidy, later, Gathered, get_all-gathers}
use container_object_storage.AccessController.Marking.{AreClaimed, mark_all-claims}
use container_object_storage.World.Accesses.Protection.{Fresh, protect-Kept}
use container_object_storage.AccessController.Handover.{claims_of, HandedOver, hand_over-HandedOver}
use container_object_storage.AccessController.{already_initialized, initialize, reconcile_access}

module _ (env : Env) (a : BucketAccess) (l : IsLawful env.runtime) (keeps : KeepsAccesses env) where
  abbrev Began : State BucketAccess → Type 0
  Began = Fresh env a (IsTidy a env) (λ b r h t. t)

  -- The access that is read from memory is as it was, with nothing handed over.
  abbrev IsBlank : BucketAccess → Type 0
  IsBlank b =
      (b.metadata.namespace ≡ a.metadata.namespace)
      × (b.spec ≡ a.spec)
      × (is_empty b.status.accessed_buckets ≡ true)

  initialized_none : (b : Bool) → already_initialized b ≡ none → b ≡ false
  unfolding already_initialized
  initialized_none true h = cc
  initialized_none false h = refl

  reads :
      (x : Call) (n : String) (r : Result BucketClaim) (s : State BucketAccess)
      → x ≡ get_bucket_claim a.metadata.namespace n r
      → Base env a s
      → Base env a (record s { history = x ∷ s.history })
  reads x n r s e h = later env a x s h (rw e h.2)

  gathers :
      (namespace : String) (refs : List BucketClaimAccess)
      → namespace ≡ a.metadata.namespace
      → refs ≡ claims_of env a
      → Ensures
          (Base env a)
          (get_all_bucket_claims env namespace refs)
          (Gathered env a (Base env a) (Tidy env a) reads (λ s h. h.2) (claims_of env a))
          (λ _. Tidy env a)
  gathers namespace refs p q =
      rw p (
        rw q (get_all-gathers env a (Base env a) (Tidy env a) reads (λ s h. h.2) (claims_of env a)))

  -- A BucketAccess that is not initialised has no Buckets.
  found-is_empty :
      (f : BucketAccess) (i : Bool)
      → f ≡ a
      → sidecar_requirements_present f.status ≡ ok i
      → i ≡ false
      → is_empty a.status.accessed_buckets ≡ true
  found-is_empty f i same present absent =
      let blank =
        (sidecar_requirements_present_cases a.status).1.0
          (ap (λ j. sidecar_requirements_present j.status) (sym same) ∙ present ∙ ap ok absent) in
      rw blank.no_buckets refl

  reads-IsBlank :
      is_empty a.status.accessed_buckets ≡ true
      → Ensures (Base env a) object (λ b s. IsBlank b × Base env a s) (λ _. Tidy env a)
  reads-IsBlank none_accessed = Ensures-loosen Ensures-object (λ b s h.
      let p = h.0.0.0 in
      (
        (
          ap (λ j. j.metadata.namespace) h.1 ∙ sym p.same_namespace,
          ap (λ j. j.spec) h.1 ∙ sym p.same_spec,
          ap (λ j. is_empty j.accessed_buckets) (ap (λ j. j.status) h.1 ∙ sym h.0.0.1)
              ∙ none_accessed,
        ),
        h.0,
      ))

  initialize-HandedOver : Ensures Began (initialize env) (λ _. HandedOver env a) (λ _. Tidy env a)
  unfolding initialize
  initialize-HandedOver =
      Ensures-bind (λ f s. (f ≡ a) × Began s)
        (Ensures-loosen Ensures-object (λ f s h. (h.1 ∙ h.0.0, h.0)))
        λ f. Ensures-given λ same.
          Ensures-lifted _ _ (λ s h. h.1)
            λ i present.
              Ensures-checked _ (λ s h. h.1)
                λ absent.
                  Ensures-bind (λ _. Base env a)
                    (protect-Kept env a (IsTidy a env) (λ b r h t. t) l keeps)
                    λ _.
                      Ensures-bind (λ b s. IsBlank b × Base env a s)
                        (reads-IsBlank
                          (found-is_empty f i same present (initialized_none i absent)))
                        λ b. Ensures-given λ (ns, spec, empty).
                          Ensures-checked _ (λ s h. h.2)
                            λ unique.
                              Ensures-bind
                                (Gathered env a (Base env a) (Tidy env a) reads (λ s h. h.2)
                                  (claims_of env a))
                                (gathers _ _ ns (ap (λ j. j.bucket_claims) spec))
                                λ claims.
                                  Ensures-bind
                                    (λ m s.
                                      Base env a s
                                      × HasUniqueKeys m
                                      × AreClaimed a (claims_of env a) m s.history)
                                    (Ensures-weaken (mark_all-claims env a (claims_of env a) claims)
                                      (λ s (h, u, g, y, k). (h, u, g, k)))
                                    λ m.
                                      (Ensures-branch _ (λ e. let q = ap not empty in cc)
                                        (λ _.
                                          Ensures-weaken (hand_over-HandedOver env a m)
                                            (λ s (h, u, g). (u, (h, g)))))

  reconcile-HandedOver :
      is_deleting a.metadata ≡ false
      → Ensures Began (reconcile_access env) (λ _. HandedOver env a) (λ _. Tidy env a)
  unfolding reconcile_access
  reconcile-HandedOver living =
      Ensures-bind (λ b s. (b ≡ a) × Began s)
        (Ensures-loosen Ensures-object (λ b s h. (h.1 ∙ h.0.0, h.0)))
        λ b. Ensures-given λ same.
          Ensures-branch _ (λ e. let q = ap (λ j. is_deleting j.metadata) (sym same) in cc)
            (λ _. initialize-HandedOver)

  -- The reconcile of a BucketAccess that is not being deleted returns no error only when its latest
  -- call stored a status that hands the BucketAccess over to the Sidecar: the driver's name, the
  -- authentication type and the parameters are those of a BucketAccessClass that the server answered
  -- and that allows this BucketAccess, and there is one entry for each referenced BucketClaim, in
  -- order. Each entry is made of a claim that the server answered, that was found or stored with the
  -- mark, is not being deleted, is ready, and lists no protocols or the one that is asked for, and of
  -- its bound Bucket, which the server answered with a bucket ID. This holds with the documented
  -- behaviour of the finalizer helpers and of the server.
  pub reconcile_access-IsHandedOver :
      is_deleting a.metadata ≡ false
      → (reconcile_access env (start a)).0 ≡ ok tt
      → IsHandedOver a (reconcile_access env (start a)).1.history
  reconcile_access-IsHandedOver living success =
      (Ensures-success (reconcile-HandedOver living) (start a) (refl, tt) success).0

  -- However the reconcile of a BucketAccess that is not being deleted ends, it updates no claim but to
  -- add the mark to one that the server answered, and only after the finalizer was stored on the
  -- BucketAccess; and it changes no Bucket and no Secret, and calls no driver.
  pub reconcile_access-IsTidy :
      is_deleting a.metadata ≡ false → IsTidy a env (reconcile_access env (start a)).1.history
  reconcile_access-IsTidy living =
      Ensures-always (Ensures-loosen (reconcile-HandedOver living) (λ _ s h. h.1)) (start a)
        (refl, tt)
