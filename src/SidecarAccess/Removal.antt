-- ===== src/SidecarAccess/Removal.antt =====
-- sidecar/pkg/reconciler/bucketaccess.go: the Secrets of a BucketAccess that is being deleted.
use container_object_storage.Prelude.{
  ◌≡◌, ◌⊎◌, inl, inr, refl, sym, ap, ◌∙◌, subst, true, false, List, [], ◌∷◌, ◌++◌, append-nil,
  append_assoc, All, arith, Bool-cases,
}
use container_object_storage.Errors.{Error, Result, ok, err}
use container_object_storage.Api.Meta.{protection_finalizer, is_deleting}
use container_object_storage.Api.Access.{BucketAccess, BucketClaimAccess}
use container_object_storage.Api.Secret.{Secret}
use container_object_storage.World.{Env, Call, History, get_secret, update_secret, delete_secret}
use container_object_storage.World.Recorded.{Recorded}
use container_object_storage.World.Action.{State}
use container_object_storage.World.Accesses.Protection.{IsSameAccess}
use container_object_storage.World.Ensures.{
  Ensures, Ensures-bind, Ensures-pure, Ensures-branch, Ensures-call, Ensures-check, Ensures-try,
  Ensures-on_error, Ensures-weaken, Ensures-given, Ensures-loosen, Ensures-both, Ensures-object,
}
use container_object_storage.World.Ensures.Loop.{Ensures-range}
use container_object_storage.Errors.Laws.{append_ne_nil, error_of-none}
use container_object_storage.SidecarAccess.Secrets.{
  with_finalizers, send_secret, delete_found_secret, collect_deleted, delete_read, delete_secret_of,
  delete_owned_access_secrets,
}
use container_object_storage.SidecarAccess.Evidence.{KeepsSecrets, IsOwned, IsCareful}
use container_object_storage.SidecarAccess.Ready.{All-append, All-map}

module _ (env : Env) (a : BucketAccess) where
  abbrev pub released : Secret → Secret
  released s =
      with_finalizers (env.runtime.remove_finalizer s.metadata.finalizers protection_finalizer) s

  -- The Secret was stored without its finalizer, and the deletion of what was stored succeeded.
  abbrev pub IsDeleted : Secret → History → Type 0
  IsDeleted s h =
      (t : Secret) × Recorded (update_secret (released s) (ok t)) h
      × Recorded (delete_secret t (ok tt)) h

  -- The Secret was answered to be missing, or is not the BucketAccess's, or was deleted.
  abbrev pub IsGone : History → BucketClaimAccess → Type 0
  IsGone h ref =
      ((e : Error) × Recorded (get_secret a.metadata.namespace ref.access_secret_name (err e)) h
        × (env.is_not_found e ≡ true))
      ⊎ ((s : Secret) × Recorded (get_secret a.metadata.namespace ref.access_secret_name (ok s)) h
          × ((env.runtime.is_controlled_by s.metadata.owners a.metadata.uid ≡ false)
              ⊎ IsDeleted s h))

  pub IsGone-later :
      (x : Call) (h : History) (ref : BucketClaimAccess) → IsGone h ref → IsGone (x ∷ h) ref
  IsGone-later x h ref (inl (e, p, q)) = inl (e, inr p, q)
  IsGone-later x h ref (inr (s, p, inl q)) = inr (s, inr p, inl q)
  IsGone-later x h ref (inr (s, p, inr (t, q, r))) = inr (s, inr p, inr (t, inr q, inr r))

  -- The object is the BucketAccess that was read, with its account ID.
  abbrev pub Doomed : State BucketAccess → Type 0
  Doomed s =
      IsSameAccess a s.object
      × (a.status.account_id ≡ s.object.status.account_id)
      × IsCareful env a s.history

  abbrev AreGoneUpTo : List BucketClaimAccess → History → Type 0
  AreGoneUpTo rest h =
      (done : List BucketClaimAccess) × (a.spec.bucket_claims ≡ done ++ rest) × All (IsGone h) done

  abbrev Deleting : List BucketClaimAccess → List Error → State BucketAccess → Type 0
  Deleting rest errs s = Doomed s × (errs ≡ [] → AreGoneUpTo rest s.history)

  Deleting-later :
      (x : Call) (rest : List BucketClaimAccess) (errs : List Error) (s : State BucketAccess)
      → Deleting rest errs s
      → IsCareful env a (x ∷ s.history)
      → Deleting rest errs (record s { history = x ∷ s.history })
  Deleting-later x rest errs s (d, k) c = (
    (d.0, d.1, c),
    λ z. let (done, q, g) = k z in (done, q, All-map (IsGone-later x s.history) done g),
  )

  gone_next :
      (ref : BucketClaimAccess) (rest : List BucketClaimAccess) (errs : List Error)
      (s : State BucketAccess)
      → Deleting (ref ∷ rest) errs s
      → IsGone s.history ref
      → Deleting rest errs s
  gone_next ref rest errs s (d, k) g = (
    d,
    λ z.
        let (done, q, all) = k z in
        (
          done ++ ref ∷ [],
          q ∙ sym (append_assoc done (ref ∷ []) rest),
          All-append _ done ref all g,
        ),
  )

  gone_error :
      (rest rest' : List BucketClaimAccess) (errs : List Error) (e : Error) (s : State BucketAccess)
      → Deleting rest errs s
      → Deleting rest' (errs ++ e ∷ []) s
  gone_error rest rest' errs e s (d, k) = (d, λ z. absurd (append_ne_nil errs e z))

  module _ (secrets : KeepsSecrets env) (deleting : is_deleting a.metadata ≡ true) where
    module _ (ref : BucketClaimAccess) (rest : List BucketClaimAccess) (errs : List Error)
        (s : Secret) (owned : IsOwned env a s) where
      abbrev Fetched : State BucketAccess → Type 0
      Fetched st =
          Deleting (ref ∷ rest) errs st
          × Recorded (get_secret a.metadata.namespace ref.access_secret_name (ok s)) st.history

      delete_found-IsDeleted :
          Ensures Fetched
            (delete_found_secret env s)
            (λ _ st. Fetched st × IsDeleted s st.history)
            (λ _. Fetched)
      unfolding delete_found_secret send_secret
      delete_found-IsDeleted =
          Ensures-bind
            (λ t st.
              IsOwned env a t
              × (Fetched st × Recorded (update_secret (released s) (ok t)) st.history))
            (Ensures-on_error (λ _. Fetched) _
              (Ensures-call _ _
                (λ t st h e. (
                  subst (λ i. env.runtime.is_controlled_by i a.metadata.uid ≡ true)
                      (secrets.on_update st.history _ t e).0 owned,
                  ((Deleting-later _ (ref ∷ rest) errs st h.0 (owned, h.0.0.2), inr h.1), inl refl),
                ))
                (λ x st h e. (Deleting-later _ (ref ∷ rest) errs st h.0 (owned, h.0.0.2), inr h.1)))
              (λ x st h. h))
            λ t. Ensures-given λ o.
              Ensures-call _ _
                (λ _ st h e. (
                  (Deleting-later _ (ref ∷ rest) errs st h.0.0 (o, deleting, h.0.0.0.2), inr h.0.1),
                  (t, inr h.1, inl refl),
                ))
                (λ x st h e.
                  (Deleting-later _ (ref ∷ rest) errs st h.0.0 (o, deleting, h.0.0.0.2), inr h.0.1))

    delete_read-Deleting :
        (b : BucketAccess) (ref : BucketClaimAccess) (rest : List BucketClaimAccess)
        (errs : List Error) (r : Result Secret)
        → b.metadata.uid ≡ a.metadata.uid
        → Ensures
            (λ s.
              Deleting (ref ∷ rest) errs s
              × Recorded (get_secret a.metadata.namespace ref.access_secret_name r) s.history)
            (delete_read env b r errs)
            (Deleting rest)
            (λ _ s. IsCareful env a s.history)
    unfolding delete_read collect_deleted
    delete_read-Deleting b ref rest errs (err e) p = Ensures-pure _ (λ s h.
        elim (Bool-cases (env.is_not_found e)) [
          | inl t ↦ rw t (gone_next ref rest errs s h.0 (inl (e, h.1, t)))
          | inr t ↦ rw t (gone_error (ref ∷ rest) rest errs e s h.0)
        ])
    delete_read-Deleting b ref rest errs (ok s) p =
        Ensures-branch _
          (λ t. Ensures-pure _ (λ st h. gone_next ref rest errs st h.0 (
            inr (
              s,
              h.1,
              inl (
                  subst (λ i. env.runtime.is_controlled_by s.metadata.owners i ≡ false) p
                    (ground (arith, t))),
            ))))
          λ t.
            Ensures-bind (λ r. Deleting rest (collect_deleted env r errs))
              (Ensures-try _ (
                Ensures-both
                  (delete_found-IsDeleted ref rest errs s (
                    subst (λ i. env.runtime.is_controlled_by s.metadata.owners i ≡ true) p
                      (ground (arith, t))))
                  (λ _ st h. gone_next ref rest errs st h.0.0 (inr (s, h.0.1, inr h.1)))
                  (λ x st h. gone_error (ref ∷ rest) rest errs x st h.0)))
              λ r. Ensures-pure _ (λ st h. h)

    pub delete_owned-AreGone :
        Ensures Doomed
          (delete_owned_access_secrets env)
          (λ _ s. Doomed s × All (IsGone s.history) a.spec.bucket_claims)
          (λ _ s. IsCareful env a s.history)
    unfolding delete_owned_access_secrets delete_secret_of
    delete_owned-AreGone =
        Ensures-bind (λ b s. IsSameAccess a b × Doomed s)
          (Ensures-loosen Ensures-object (λ b s h. (rw h.1 h.0.0, h.0)))
          λ b. Ensures-given λ same.
            Ensures-bind (Deleting [])
              (Ensures-weaken
                (Ensures-range Deleting (delete_secret_of env b) (step b same) b.spec.bucket_claims
                  [])
                (λ s h. (h, λ z. ([], ap (λ i. i.bucket_claims) same.same_spec, tt))))
              λ errs.
                Ensures-check _
                  (λ e s (h, k).
                    let (done, q, g) = k (error_of-none _ errs e) in
                    (h, subst (All (IsGone s.history)) (sym (q ∙ append-nil done)) g))
                  (λ x e s h. h.0.2)
      where
        step :
            (b : BucketAccess)
            → IsSameAccess a b
            → (ref : BucketClaimAccess) (rest : List BucketClaimAccess) (errs : List Error)
            → Ensures
                (Deleting (ref ∷ rest) errs)
                (delete_secret_of env b ref errs)
                (Deleting rest)
                (λ _ s. IsCareful env a s.history)
        step b same ref rest errs = rw (← same.same_namespace) (
            Ensures-bind
              (λ r s.
                Deleting (ref ∷ rest) errs s
                × Recorded (get_secret a.metadata.namespace ref.access_secret_name r) s.history)
              (Ensures-try _ (
                Ensures-call _ _
                  (λ t s h e. (Deleting-later _ (ref ∷ rest) errs s h h.0.2, inl refl))
                  (λ x s h e. (Deleting-later _ (ref ∷ rest) errs s h h.0.2, inl refl))))
              λ r. delete_read-Deleting b ref rest errs r (sym same.same_uid))
