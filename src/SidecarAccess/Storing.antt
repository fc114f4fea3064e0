-- ===== src/SidecarAccess/Storing.antt =====
-- sidecar/pkg/reconciler/bucketaccess.go: the Secrets that get the granted credentials.
use container_object_storage.Prelude.{
  ◌≡◌, inr, refl, sym, ◌∙◌, subst, String, false, Option, none, some, List, [], ◌∷◌, ◌++◌,
  append-nil, append_assoc, All, Dict, dict_get,
}
use container_object_storage.Errors.{Error, ok}
use container_object_storage.Errors.Laws.{append_ne_nil, error_of-none}
use container_object_storage.Api.Meta.{is_deleting}
use container_object_storage.Api.Access.{BucketAccess}
use container_object_storage.Api.Secret.{Secret}
use container_object_storage.Runtime.{IsLawful}
use container_object_storage.World.{Env, Call, History, update_secret}
use container_object_storage.World.Recorded.{Recorded}
use container_object_storage.World.Action.{State}
use container_object_storage.World.Ensures.{
  Ensures, Ensures-bind, Ensures-pure, Ensures-check, Ensures-try, Ensures-weaken, Ensures-given,
  Ensures-both,
}
use container_object_storage.World.Ensures.Loop.{Ensures-range}
use container_object_storage.SidecarAccess.Config.{
  InternalGrantAccessConfig, BucketGrantAccessConfig,
}
use container_object_storage.SidecarAccess.Granted.{GrantedAccessApiDetails}
use container_object_storage.SidecarAccess.Secrets.{
  granted_data, Reserved, collect_updated, update_named_secret, update_configured_secret,
  update_secret_for, update_secrets_with_granted_info,
}
use container_object_storage.SidecarAccess.Evidence.{KeepsSecrets, AreOwned, IsCareful, Held}
use container_object_storage.SidecarAccess.Ready.{All-append, All-map}
use container_object_storage.SidecarAccess.Ownership.{AreOwned-set, send-IsOwned}

module _ (cfg : InternalGrantAccessConfig) (details : GrantedAccessApiDetails) where
  -- The Secret that is configured for the bucket ID was stored with the credentials and the bucket's
  -- info.
  abbrev pub IsStoredFor : History → String × Dict String → Type 0
  IsStoredFor h e =
      (c : BucketGrantAccessConfig) × (dict_get cfg.access_configs_by_bucket_id e.0 ≡ some c)
      × ((s : Secret) × (s.metadata.name ≡ c.access_secret_name)
          × (s.string_data ≡ granted_data details.shared_credential_info e.1)
          × ((t : Secret) × Recorded (update_secret s (ok t)) h))

  pub IsStoredFor-later :
      (x : Call) (h : History) (e : String × Dict String) → IsStoredFor h e → IsStoredFor (x ∷ h) e
  IsStoredFor-later x h e (c, p, (s, n, d, (t, r))) = (c, p, (s, n, d, (t, inr r)))

  abbrev AreStoredUpTo : List (String × Dict String) → History → Type 0
  AreStoredUpTo rest h =
      (done : List (String × Dict String)) × (details.bucket_info_by_bucket_id ≡ done ++ rest)
      × All (IsStoredFor h) done

  module _ (env : Env) (a : BucketAccess) (l : IsLawful env.runtime) (keeps : KeepsSecrets env)
      (living : is_deleting a.metadata ≡ false) (Extra : History → Type 0)
      (extra : (x : Call) (h : History) → Extra h → Extra (x ∷ h)) where
    abbrev WithStored : List (String × Dict String) → List Error → History → Type 0
    WithStored rest errs h = Extra h × (errs ≡ [] → AreStoredUpTo rest h)

    WithStored-later :
        (rest : List (String × Dict String)) (errs : List Error) (x : Call) (h : History)
        → WithStored rest errs h
        → WithStored rest errs (x ∷ h)
    WithStored-later rest errs x h (p, k) = (
      extra x h p,
      λ z. let (done, q, g) = k z in (done, q, All-map (IsStoredFor-later x h) done g),
    )

    abbrev Storing : List (String × Dict String) → Reserved → State BucketAccess → Type 0
    Storing rest v s = AreOwned env a v.0 × (Held env a s × WithStored rest v.1 s.history)

    failed :
        (rest rest' : List (String × Dict String)) (errs : List Error) (e : Error)
        (s : State BucketAccess)
        → Held env a s × WithStored rest errs s.history
        → Held env a s × WithStored rest' (errs ++ e ∷ []) s.history
    failed rest rest' errs e s (h, (p, k)) = (h, (p, λ z. absurd (append_ne_nil errs e z)))

    stored :
        (id : String) (info : Dict String) (rest : List (String × Dict String)) (errs : List Error)
        (s : State BucketAccess)
        → Held env a s × WithStored ((id, info) ∷ rest) errs s.history
        → IsStoredFor s.history (id, info)
        → Held env a s × WithStored rest errs s.history
    stored id info rest errs s (h, (p, k)) g = (
      h,
      (
        p,
        λ z.
            let (done, q, all) = k z in
            (
              done ++ (id, info) ∷ [],
              q ∙ sym (append_assoc done ((id, info) ∷ []) rest),
              All-append _ done (id, info) all g,
            ),
      ),
    )

    update_secret_for-Storing :
        (e : String × Dict String) (rest : List (String × Dict String)) (v : Reserved)
        → Ensures
            (Storing (e ∷ rest) v)
            (update_secret_for env cfg details e v)
            (Storing rest)
            (λ _ s. IsCareful env a s.history)
    unfolding update_secret_for update_named_secret collect_updated update_configured_secret
    update_secret_for-Storing (id, info) rest (m, errs) =
        configured (dict_get cfg.access_configs_by_bucket_id id) refl
      where
        entries : Dict String
        entries = granted_data details.shared_credential_info info

        named :
            (c : BucketGrantAccessConfig) (o : Option Secret)
            → dict_get cfg.access_configs_by_bucket_id id ≡ some c
            → o ≡ dict_get m c.access_secret_name
            → Ensures
                (Storing ((id, info) ∷ rest) (m, errs))
                (update_named_secret env entries c.access_secret_name o (m, errs))
                (Storing rest)
                (λ _ s. IsCareful env a s.history)
        named c none p q = Ensures-pure _ (λ s h. (h.0, failed _ rest errs _ s h.1))
        named c (some t) p q = Ensures-given λ g.
            let n = c.access_secret_name in
            let o = g n t (sym q) in
            let sent : Secret = record t { string_data = entries } in
            Ensures-bind (λ r s. Storing rest (collect_updated env n sent r (m, errs)) s)
              (Ensures-try _ (
                Ensures-both
                  (send-IsOwned env a l keeps living (WithStored ((id, info) ∷ rest) errs)
                    (WithStored-later ((id, info) ∷ rest) errs) n sent o)
                  (λ u s h. (
                    AreOwned-set env a l keeps living (WithStored ((id, info) ∷ rest) errs)
                        (WithStored-later ((id, info) ∷ rest) errs) m n u g h.0.1,
                    stored id info rest errs s h.0.0 (c, p, (sent, o.1, refl, (u, h.1))),
                  ))
                  (λ x s h. (
                    AreOwned-set env a l keeps living (WithStored ((id, info) ∷ rest) errs)
                        (WithStored-later ((id, info) ∷ rest) errs) m n sent g o,
                    failed _ rest errs _ s h,
                  ))))
              λ r. Ensures-pure _ (λ s h. h)

        configured :
            (o : Option BucketGrantAccessConfig)
            → dict_get cfg.access_configs_by_bucket_id id ≡ o
            → Ensures
                (Storing ((id, info) ∷ rest) (m, errs))
                (update_configured_secret env entries id o (m, errs))
                (Storing rest)
                (λ _ s. IsCareful env a s.history)
        configured none p = Ensures-pure _ (λ s h. (h.0, failed _ rest errs _ s h.1))
        configured (some c) p = named c (dict_get m c.access_secret_name) p refl

    pub update_secrets-stores :
        AreOwned env a cfg.secrets_by_name
        → Ensures
            (λ s. Held env a s × Extra s.history)
            (update_secrets_with_granted_info env cfg details)
            (λ _ s.
              (Held env a s × Extra s.history)
              × All (IsStoredFor s.history) details.bucket_info_by_bucket_id)
            (λ _ s. IsCareful env a s.history)
    unfolding update_secrets_with_granted_info
    update_secrets-stores g =
        Ensures-bind (Storing [])
          (Ensures-weaken
            (Ensures-range Storing (update_secret_for env cfg details) update_secret_for-Storing
              details.bucket_info_by_bucket_id (cfg.secrets_by_name, []))
            (λ s h. (g, (h.0, (h.1, λ z. ([], refl, tt))))))
          λ v.
            Ensures-check _
              (λ e s (_, (h, (x, k))).
                let (done, q, all) = k (error_of-none _ v.1 e) in
                ((h, x), subst (All (IsStoredFor s.history)) (sym (q ∙ append-nil done)) all))
              (λ x e s h. h.1.0.2)
