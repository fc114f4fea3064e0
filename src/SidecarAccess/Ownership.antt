-- ===== src/SidecarAccess/Ownership.antt =====
-- sidecar/pkg/reconciler/bucketaccess.go: only Secrets of the BucketAccess are written.
use container_object_storage.Prelude.{
  ◌≡◌, inl, inr, refl, sym, ap, ◌∙◌, subst, String, true, false, some, [], ◌∷◌, ◌==◌, arith,
  Bool-cases, eq_iff, dict_get, dict_set, dict_get-dict_set,
}
use container_object_storage.Errors.{Result, ok, err}
use container_object_storage.Api.Meta.{is_deleting}
use container_object_storage.Api.Access.{BucketAccess, BucketClaimAccess}
use container_object_storage.Api.Secret.{Secret}
use container_object_storage.Runtime.{IsLawful}
use container_object_storage.World.{Env, Call, History, update_secret}
use container_object_storage.World.Recorded.{Recorded}
use container_object_storage.World.Action.{State}
use container_object_storage.World.Ensures.Steps.{Ensures-checked}
use container_object_storage.World.Ensures.{
  Ensures, Ensures-bind, Ensures-pure, Ensures-fail, Ensures-lift, Ensures-branch, Ensures-call,
  Ensures-try, Ensures-weaken, Ensures-given, Ensures-loosen, Ensures-both, Ensures-object,
}
use container_object_storage.World.Ensures.Loop.{Ensures-range}
use container_object_storage.SidecarAccess.Config.{Secrets}
use container_object_storage.SidecarAccess.Secrets.{
  with_owners, empty_secret, Reserved, set_access_secret_required_metadata, send_secret,
  create_new_owned_access_secret, update_existing_access_secret_metadata, reserve_read,
  collect_secret, reserve_secret, reserve_access_secrets,
}
use container_object_storage.SidecarAccess.Evidence.{
  KeepsSecrets, IsOwnedAs, AreOwned, IsCareful, Held, Held-later,
}

module _ (env : Env) (a : BucketAccess) (l : IsLawful env.runtime) (keeps : KeepsSecrets env)
    (living : is_deleting a.metadata ≡ false) (Extra : History → Type 0)
    (extra : (x : Call) (h : History) → Extra h → Extra (x ∷ h)) where
  -- What else is known of the history stays known.
  abbrev pub Carried : State BucketAccess → Type 0
  Carried s = Held env a s × Extra s.history

  Carried-later :
      (x : Call) (s : State BucketAccess)
      → Carried s
      → IsCareful env a (x ∷ s.history)
      → Carried (record s { history = x ∷ s.history })
  Carried-later x s h t = (Held-later env a x s h.0 t, extra x s.history h.1)

  pub AreOwned-set :
      (m : Secrets) (n : String) (s : Secret)
      → AreOwned env a m
      → IsOwnedAs env a n s
      → AreOwned env a (dict_set m n s)
  AreOwned-set m n s g o = λ k t e. elim (Bool-cases (n == k)) [
    | inl p ↦
        let q : some s ≡ some t = ground (arith, dict_get-dict_set m n k s) in
        let q' : s ≡ t = cc in
        subst (IsOwnedAs env a k) q' (subst (λ i. IsOwnedAs env a i s) ((eq_iff n k).0 p) o)
    | inr p ↦ g k t (ground (arith, dict_get-dict_set m n k s))
  ]

  abbrev pub IsHeld : String → Secret → State BucketAccess → Type 0
  IsHeld n t s = Carried s × IsOwnedAs env a n t

  kept_as :
      (n : String) (s t : Secret)
      → IsOwnedAs env a n s
      → (s.metadata.owners ≡ t.metadata.owners) × (s.metadata.name ≡ t.metadata.name)
      → IsOwnedAs env a n t
  kept_as n s t o p =
      (subst (λ i. env.runtime.is_controlled_by i a.metadata.uid ≡ true) p.0 o.0, sym p.1 ∙ o.1)

  pub send-IsOwned :
      (n : String) (s : Secret)
      → IsOwnedAs env a n s
      → Ensures Carried
          (send_secret env s)
          (λ t st. IsHeld n t st × Recorded (update_secret s (ok t)) st.history)
          (λ _. Carried)
  unfolding send_secret
  send-IsOwned n s o =
      Ensures-call _ _
        (λ t st h e. (
          (Carried-later _ st h (o.0, h.0.2), kept_as n s t o (keeps.on_update st.history s t e)),
          inl refl,
        ))
        (λ x st h e. Carried-later _ st h (o.0, h.0.2))

  create-IsOwned :
      (b : BucketAccess) (name : String)
      → b.metadata.uid ≡ a.metadata.uid
      → Ensures Carried (create_new_owned_access_secret env name b) (IsHeld name) (λ _. Carried)
  unfolding create_new_owned_access_secret set_access_secret_required_metadata
  create-IsOwned b name p =
      Ensures-bind
        (λ owners s. (env.runtime.is_controlled_by owners a.metadata.uid ≡ true) × Carried s)
        (Ensures-lift _
          (λ owners e s h. (
            subst (λ i. env.runtime.is_controlled_by owners i ≡ true) p
                (l.is_controlled_by-set_controller_reference b.metadata [] owners e),
            h,
          ))
          (λ x e s h. h))
        λ owners. Ensures-given λ o.
          Ensures-call _ _
            (λ t s h e. (
              Carried-later _ s h (o, living, h.0.2),
              kept_as name
                  (set_access_secret_required_metadata env
                    (with_owners owners (empty_secret b.metadata.namespace name)))
                  t (o, refl) (keeps.on_create s.history _ t e),
            ))
            (λ x s h e. Carried-later _ s h (o, living, h.0.2))

  reserve_read-IsOwned :
      (b : BucketAccess) (name : String) (r : Result Secret)
      → b.metadata.uid ≡ a.metadata.uid
      → ((s : Secret) → r ≡ ok s → s.metadata.name ≡ name)
      → Ensures Carried (reserve_read env b name r) (IsHeld name) (λ _. Carried)
  unfolding reserve_read update_existing_access_secret_metadata set_access_secret_required_metadata
  reserve_read-IsOwned b name (ok s) p named =
      Ensures-branch _ (λ _. Ensures-fail _ (λ st h. h))
        (λ e.
          Ensures-loosen
            (send-IsOwned name _ (
              subst (λ i. env.runtime.is_controlled_by s.metadata.owners i ≡ true) p
                  (ground (arith, e)),
              named s refl,
            ))
            (λ t st h. h.0))
  reserve_read-IsOwned b name (err x) p named =
      Ensures-branch _ (λ _. Ensures-fail _ (λ st h. h)) (λ _. create-IsOwned b name p)

  abbrev Reserving : Reserved → State BucketAccess → Type 0
  Reserving v s = AreOwned env a v.0 × Carried s

  reserve_secret-IsOwned :
      (b : BucketAccess) (ref : BucketClaimAccess) (v : Reserved)
      → b.metadata.uid ≡ a.metadata.uid
      → Ensures (Reserving v) (reserve_secret env b ref v) Reserving (λ _. Carried)
  unfolding reserve_secret collect_secret
  reserve_secret-IsOwned b ref (m, errs) p = Ensures-given λ g.
      Ensures-branch _ (λ _. Ensures-pure _ (λ s h. (g, h)))
        λ _.
          Ensures-bind
            (λ r s.
              ((t : Secret) → r ≡ ok t → t.metadata.name ≡ ref.access_secret_name) × Carried s)
            (Ensures-try _ (
              Ensures-call _ _
                (λ t s h e. (
                  (λ u q.
                      let q' : t ≡ u = cc in
                      ap (λ i. i.metadata.name) (sym q') ∙ keeps.on_get s.history _ _ t e),
                  Carried-later _ s h h.0.2,
                ))
                (λ x s h e. ((λ u q. cc), Carried-later _ s h h.0.2))))
            λ r. Ensures-given λ named.
              Ensures-bind (λ q s. Reserving (collect_secret ref.access_secret_name q (m, errs)) s)
                (Ensures-try _ (
                  Ensures-both (reserve_read-IsOwned b ref.access_secret_name r p named)
                    (λ t s h. (AreOwned-set m ref.access_secret_name t g h.1, h.0))
                    (λ x s h. (g, h))))
                λ q. Ensures-pure _ (λ s h. h)

  pub reserve-IsOwned :
      Ensures Carried
        (reserve_access_secrets env)
        (λ m s. AreOwned env a m × Carried s)
        (λ _ s. IsCareful env a s.history)
  unfolding reserve_access_secrets dict_get
  reserve-IsOwned =
      Ensures-bind (λ b s. (b.metadata.uid ≡ a.metadata.uid) × Carried s)
        (Ensures-loosen Ensures-object
          (λ b s h. (ap (λ i. i.metadata.uid) h.1 ∙ sym h.0.0.0.0.same_uid, h.0)))
        λ b. Ensures-given λ p.
          Ensures-bind Reserving
            (Ensures-both
              (Ensures-weaken
                (Ensures-range (λ _. Reserving) (reserve_secret env b)
                  (λ ref rest v. reserve_secret-IsOwned b ref v p) b.spec.bucket_claims ([], []))
                (λ s h. ((λ n t e. cc), h)))
              (λ v s h. h) (λ x s h. h.0.2))
            λ v.
              Ensures-checked _ (λ s h. h.1.0.2)
                λ reserved. Ensures-checked _ (λ s h. h.1.0.2) λ complete. Ensures-pure _ (λ s h. h)
