-- ===== src/World/Accesses/Protection.antt =====
-- The finalizer of a BucketAccess, which both reconcilers add in the same way, and what the server keeps
-- of a BucketAccess.
use container_object_storage.Prelude.{
  ◌≡◌, refl, sym, ap, subst, ◌∙◌, ◌⊎◌, inl, inr, true, ◌∷◌, arith,
}
use container_object_storage.Errors.{Result, ok, err}
use container_object_storage.Api.Meta.{protection_finalizer}
use container_object_storage.Api.Access.{BucketAccess}
use container_object_storage.Runtime.{IsLawful}
use container_object_storage.World.{Env, Call, History, update_bucket_access}
use container_object_storage.World.Recorded.{Recorded}
use container_object_storage.World.Action.{State}
use container_object_storage.World.Accesses.{update_access, protect_access}
use container_object_storage.World.Ensures.{
  Ensures, Ensures-bind, Ensures-on_error, Ensures-call, Ensures-object, Ensures-set_object,
  Ensures-modify, Ensures-when, Ensures-weaken,
}

-- What the code takes from a BucketAccess again after it was stored.
pub record IsSameAccess (a b : BucketAccess) : Type 0 where
  pub same_namespace : a.metadata.namespace ≡ b.metadata.namespace
  pub same_name : a.metadata.name ≡ b.metadata.name
  pub same_uid : a.metadata.uid ≡ b.metadata.uid
  pub same_spec : a.spec ≡ b.spec

-- The server stores a BucketAccess with the identity, the spec and the status that it is sent: the code
-- sends what it read, but for what the update is about, and a stale object is an error.
pub record KeepsAccesses (env : Env) : Type 0 where
  pub on_object :
      (h : History) (a b : BucketAccess)
      → env.on_update_bucket_access h a ≡ ok b
      → IsSameAccess a b × (a.status ≡ b.status)
  pub on_status :
      (h : History) (a b : BucketAccess)
      → env.on_update_bucket_access_status h a ≡ ok b
      → IsSameAccess a b × (a.status ≡ b.status)

pub IsSameAccess-trans :
    {a b c : BucketAccess} → IsSameAccess a b → IsSameAccess b c → IsSameAccess a c
IsSameAccess-trans p q = record {
  same_namespace = p.same_namespace ∙ q.same_namespace;
  same_name = p.same_name ∙ q.same_name;
  same_uid = p.same_uid ∙ q.same_uid;
  same_spec = p.same_spec ∙ q.same_spec;
}

module _ (a : BucketAccess) (env : Env) where
  abbrev pub HasFinalizer : BucketAccess → Type 0
  HasFinalizer b = env.runtime.contains_finalizer b.metadata.finalizers protection_finalizer ≡ true

  -- The BucketAccess had the finalizer, or an update that carried it succeeded.
  abbrev pub IsStored : History → Type 0
  IsStored h =
      HasFinalizer a
      ⊎ ((b : BucketAccess) × (c : BucketAccess) × HasFinalizer b
          × Recorded (update_bucket_access b (ok c)) h)

  pub IsStored-later : (x : Call) (h : History) → IsStored h → IsStored (x ∷ h)
  IsStored-later x h (inl p) = inl p
  IsStored-later x h (inr (b, c, f, p)) = inr (b, c, f, inr p)

-- `Good` is what is known of the history, and what an update of the BucketAccess keeps.
module _ (env : Env) (a : BucketAccess) (Good : History → Type 0)
    (good : (b : BucketAccess) (r : Result BucketAccess) (h : History)
      → Good h
      → Good (update_bucket_access b r ∷ h)) where
  -- The object is the one that was read.
  abbrev pub Fresh : State BucketAccess → Type 0
  Fresh s = (s.object ≡ a) × Good s.history

  -- The BucketAccess is what it was, and its finalizer is stored.
  abbrev pub Kept : State BucketAccess → Type 0
  Kept s =
      (IsSameAccess a s.object × (a.status ≡ s.object.status))
      × IsStored a env s.history
      × Good s.history

  -- The finalizer is set in memory.
  abbrev Set : State BucketAccess → Type 0
  Set s =
      (IsSameAccess a s.object × (a.status ≡ s.object.status))
      × HasFinalizer a env s.object
      × Good s.history

  module _ (l : IsLawful env.runtime) (keeps : KeepsAccesses env) where
    update-Kept : Ensures Set (update_access env) (λ _. Kept) (λ _ s. Good s.history)
    unfolding update_access
    update-Kept = Ensures-bind _ Ensures-object λ b.
        Ensures-bind (λ c s. Kept (record s { object = c }))
          (Ensures-call (update_bucket_access b) _
            (λ c s ((p, f, t), q) e.
              let (r, u) = keeps.on_object s.history b c e in
              (
                (
                  IsSameAccess-trans p.0 (subst (λ i. IsSameAccess i c) q r),
                  p.1 ∙ sym (ap (λ i. i.status) q) ∙ u,
                ),
                inr (b, c, rw q f, inl refl),
                good b (ok c) s.history t,
              ))
            (λ x s h e. good b (err x) s.history h.0.2))
          λ c. Ensures-set_object c (λ s h. h)

    pub protect-Kept : Ensures Fresh (protect_access env) (λ _. Kept) (λ _ s. Good s.history)
    unfolding protect_access
    protect-Kept = Ensures-bind _ Ensures-object λ b.
        let added = env.runtime.add_finalizer b.metadata.finalizers protection_finalizer in
        Ensures-bind (λ _ s. Set s × (b ≡ a))
          (Ensures-modify _ (λ s ((p, t), q).
            let r : b ≡ a = q ∙ p in
            (
              (
                (
                  record {
                    same_namespace = ap (λ i. i.metadata.namespace) (sym p);
                    same_name = ap (λ i. i.metadata.name) (sym p);
                    same_uid = ap (λ i. i.metadata.uid) (sym p);
                    same_spec = ap (λ i. i.spec) (sym p);
                  },
                  ap (λ i. i.status) (sym p),
                ),
                l.contains-add_finalizer b.metadata.finalizers protection_finalizer,
                t,
              ),
              r,
            )))
          λ _.
            Ensures-when _
              (λ h.
                Ensures-on_error (λ _ s. Good s.history) _ (Ensures-weaken update-Kept (λ s h. h.0))
                  (λ e s h. h))
              (λ h s ((p, f, t), q). (
                p,
                inl (
                    rw (← q) (
                      ground (
                        arith,
                        l.add_finalizer_unchanged b.metadata.finalizers protection_finalizer,
                        h,
                      ))),
                t,
              ))
