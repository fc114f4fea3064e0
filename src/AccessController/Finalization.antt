-- ===== src/AccessController/Finalization.antt =====
-- bucketaccess.go of the Controller: a reconcile of a BucketAccess that is being deleted, as a whole.
use container_object_storage.Prelude.{
  ◌≡◌, refl, sym, ap, ◌∙◌, ◌∷◌, inl, inr, true, String, [], HasUniqueKeys,
}
use container_object_storage.Errors.{Result, ok}
use container_object_storage.Api.Meta.{is_deleting}
use container_object_storage.Api.Bucket.{BucketClaim}
use container_object_storage.Api.Access.{BucketAccess}
use container_object_storage.World.{Env, Call, get_bucket_claim, update_bucket_access}
use container_object_storage.World.Action.{State, start}
use container_object_storage.World.Accesses.{update_access}
use container_object_storage.World.Ensures.{
  Ensures, Ensures-bind, Ensures-branch, Ensures-on_error, Ensures-call, Ensures-object,
  Ensures-set_object, Ensures-modify, Ensures-success, Ensures-always, Ensures-loosen,
  Ensures-given,
}
use container_object_storage.AccessController.Marks.{Claims}
use container_object_storage.AccessController.Gather.{Gathered, Covers, get_all-gathers}
use container_object_storage.AccessController.Deletion.{
  unprotected, AreLetGo, IsCautious, IsFinalized,
}
use container_object_storage.AccessController.Deletion.Loop.{Untouched, AreAnswered, unmark-lets_go}
use container_object_storage.AccessController.{finalize, reconcile_access}

module _ (env : Env) (a : BucketAccess) where
  abbrev Cautious : State BucketAccess → Type 0
  Cautious s = IsCautious env a s.history

  abbrev Finalized : State BucketAccess → Type 0
  Finalized s = IsFinalized env a s.history × IsCautious env a s.history

  reads :
      (x : Call) (n : String) (r : Result BucketClaim) (s : State BucketAccess)
      → x ≡ get_bucket_claim a.metadata.namespace n r
      → Untouched env a s
      → Untouched env a (record s { history = x ∷ s.history })
  reads x n r s e h = (h.0, rw e h.1)

  abbrev GatheredAll : Claims → State BucketAccess → Type 0
  GatheredAll = Gathered env a (Untouched env a) Cautious reads (λ s h. h.1) a.spec.bucket_claims

  stores_unprotected :
      Ensures
        (λ s. (s.object ≡ unprotected env a) × AreLetGo env a s.history × Cautious s)
        (update_access env)
        (λ _. Finalized)
        (λ _. Cautious)
  unfolding update_access
  stores_unprotected = Ensures-bind _ Ensures-object λ b.
      Ensures-bind (λ _. Finalized)
        (Ensures-call (update_bucket_access b) _
          (λ c s ((p, g, t), q) e. let r : b ≡ unprotected env a = q ∙ p in ((r, g), (r, g, t)))
          (λ x s ((p, g, t), q) e. (q ∙ p, g, t)))
        λ c. Ensures-set_object c (λ s h. h)

  finalize-Finalized : Ensures (Untouched env a) (finalize env) (λ _. Finalized) (λ _. Cautious)
  unfolding finalize
  finalize-Finalized =
      Ensures-bind (λ b s. (b ≡ a) × Untouched env a s)
        (Ensures-loosen Ensures-object (λ b s h. (h.1 ∙ h.0.0, h.0)))
        λ b. Ensures-given λ same. rw same (
          Ensures-bind GatheredAll
            (get_all-gathers env a (Untouched env a) Cautious reads (λ s h. h.1)
              a.spec.bucket_claims)
            λ m.
              Ensures-bind
                (λ l s.
                  (HasUniqueKeys m × Covers a.spec.bucket_claims m [])
                  × (Untouched env a s × AreAnswered env a l m s.history))
                (Ensures-call _ _
                  (λ l s (b, u, g, y, k) e. (
                    (u, k),
                    (
                      b,
                      (
                        (λ n c e. inr (g n c e)),
                        (λ n e. let (z, q, t) = y n e in (z, inr q, t)),
                        inl refl,
                      ),
                    ),
                  ))
                  (λ x s h e. h.0.1))
                λ l. Ensures-given λ (u, k). Ensures-bind _ (unmark-lets_go env a l m u k) λ _.
                  Ensures-bind
                    (λ _ s. (s.object ≡ unprotected env a) × AreLetGo env a s.history × Cautious s)
                    (Ensures-modify _ (λ s ((p, t), g). (rw p refl, g, t)))
                    λ _. Ensures-on_error (λ _. Cautious) _ stores_unprotected (λ e s h. h))

  reconcile-Finalized :
      is_deleting a.metadata ≡ true
      → Ensures (Untouched env a) (reconcile_access env) (λ _. Finalized) (λ _. Cautious)
  unfolding reconcile_access
  reconcile-Finalized deleting =
      Ensures-bind (λ b s. (b ≡ a) × Untouched env a s)
        (Ensures-loosen Ensures-object (λ b s h. (h.1 ∙ h.0.0, h.0)))
        λ b. Ensures-given λ same.
          Ensures-branch _ (λ _. finalize-Finalized)
            (λ e. let q = ap (λ j. is_deleting j.metadata) (sym same) in cc)

  -- However the reconcile of a BucketAccess that is being deleted ends, it takes the mark only from
  -- claims that had it when the server answered them, and only when the list of the BucketAccesses
  -- that the server answered before has none of another name with a reference to the claim; it stores the
  -- BucketAccess only without its finalizer, and only after each referenced claim was answered to be
  -- missing, had no mark, is referenced by another BucketAccess of the list, or was stored without it; and it
  -- changes no Bucket, no Secret and no status, and calls no driver.
  pub reconcile_access-IsCautious :
      is_deleting a.metadata ≡ true → IsCautious env a (reconcile_access env (start a)).1.history
  reconcile_access-IsCautious deleting =
      Ensures-always (Ensures-loosen (reconcile-Finalized deleting) (λ _ s h. h.1)) (start a)
        (refl, tt)

  -- The reconcile of a BucketAccess that is being deleted returns no error only when its latest call
  -- stored the BucketAccess without its finalizer, after each referenced claim was answered to be missing,
  -- had no mark, is referenced by another BucketAccess of the list that the server answered, or was
  -- stored without the mark.
  pub reconcile_access-IsFinalized :
      is_deleting a.metadata ≡ true
      → (reconcile_access env (start a)).0 ≡ ok tt
      → IsFinalized env a (reconcile_access env (start a)).1.history
  reconcile_access-IsFinalized deleting success =
      (Ensures-success (reconcile-Finalized deleting) (start a) (refl, tt) success).0
