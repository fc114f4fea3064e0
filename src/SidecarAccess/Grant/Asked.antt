-- ===== src/SidecarAccess/Grant/Asked.antt =====
-- sidecar/pkg/reconciler/bucketaccess.go: where the configurations of a grant, and so the Buckets that its
-- request asks for, come from.
use container_object_storage.Prelude.{
  ◌≡◌, ◌∙◌, ℕ, refl, sym, subst, String, true, some, List, [], ◌∷◌, ◌==◌, Dict, dict_get,
  dict_get-dict_set, dict_has, dict_set-HasUniqueKeys, HasUniqueKeys, All, Exists, inl, inr, arith,
  eq_iff, Bool-cases, Option-cases,
}
use container_object_storage.Errors.{ok, Result-cases}
use container_object_storage.Api.Access.{
  BucketAccess, BucketClaimAccess, AccessedBucket, read_only_mode, read_write_mode, write_only_mode,
}
use container_object_storage.Rpc.{GrantAccessedBucket}
use container_object_storage.Translator.{access_mode_to_rpc}
use container_object_storage.SidecarAccess.Config.{
  BucketGrantAccessConfig, Configs, bucket_ids_by_claim_name, set_config, add_config, add_configs,
  rpc_grant_buckets_list, generate_internal_accessed_bucket_configs,
}
use container_object_storage.SidecarAccess.Requests.{generated_ok}
use container_object_storage.SidecarAccess.Collisions.{add_config-IsConfigured, add_configs-stays}
use container_object_storage.SidecarAccess.Ready.{All-map}
use container_object_storage.SidecarAccess.Grant.Accepted.{dict_set-All, dict_set-keeps}
use container_object_storage.SidecarAccess.Grant.{IsMode, IsAccessed}

access_mode_to_rpc-IsMode : (m : String) (n : ℕ) → access_mode_to_rpc m ≡ ok n → IsMode m n
unfolding access_mode_to_rpc
access_mode_to_rpc-IsMode m n h =
    ground (arith, h, eq_iff m read_only_mode, eq_iff m read_write_mode, eq_iff m write_only_mode)

-- What holds with one element of a list holds with each of its elements.
pub Exists-each :
    {A B : Type 0} (R : B → A → Type 0) (xs : List A)
    → All (λ x. (y : B) → R y x → Exists (R y) xs) xs
Exists-each R [] = tt
Exists-each R (x ∷ xs) = ((λ y r. inl r), All-map (λ z f y r. inr (f y r)) xs (Exists-each R xs))

-- The map of the bucket IDs has what the status has.
module _ (P : String → String → Type 0) where
  abbrev AreMapped : Dict String → Type 0
  AreMapped m = (n id : String) → dict_get m n ≡ some id → P n id

  bucket_ids_by_claim_name-AreMapped :
      (abs : List AccessedBucket) (m : Dict String)
      → All (λ ab. P ab.bucket_claim_name ab.bucket_id) abs
      → AreMapped m
      → AreMapped (bucket_ids_by_claim_name abs m)
  unfolding bucket_ids_by_claim_name
  bucket_ids_by_claim_name-AreMapped [] m h k = k
  bucket_ids_by_claim_name-AreMapped (ab ∷ abs) m h k =
      bucket_ids_by_claim_name-AreMapped abs _ h.1 λ n id e.
        let set = dict_get-dict_set m ab.bucket_claim_name n ab.bucket_id in
        elim (Bool-cases (ab.bucket_claim_name == n)) [
          | inl t ↦
              let q : some ab.bucket_id ≡ some id = sym (rw t at set) ∙ e in
              let i : ab.bucket_id ≡ id = cc in
              subst (λ j. P j id) ((eq_iff ab.bucket_claim_name n).0 t)
                (subst (P ab.bucket_claim_name) i h.0)
          | inr t ↦ k n id (sym (rw t at set) ∙ e)
        ]

-- The status has the Bucket of a claim that the map of the bucket IDs has.
mapped-IsAccessed :
    (a : BucketAccess) (n id : String)
    → dict_get (bucket_ids_by_claim_name a.status.accessed_buckets []) n ≡ some id
    → IsAccessed a n id
mapped-IsAccessed a =
    let abs = a.status.accessed_buckets in
    let f =
      Exists-each (λ (e : String × String) ab. (ab.bucket_claim_name ≡ e.0) × (ab.bucket_id ≡ e.1))
        abs in
    bucket_ids_by_claim_name-AreMapped (IsAccessed a) abs []
      (All-map (λ ab g. g (ab.bucket_claim_name, ab.bucket_id) (refl, refl)) abs f)
      (λ n id e. unfold dict_get in cc)

module _ (ids : Dict String) where
  -- Each configuration is that of a reference whose claim has a bucket ID in the map.
  add_configs-All :
      (P : String × BucketGrantAccessConfig → Type 0) (refs : List BucketClaimAccess)
      (acc : Configs)
      → All
          (λ ref.
            (id : String) (mode : ℕ)
            → dict_get ids ref.bucket_claim_name ≡ some id
            → access_mode_to_rpc ref.access_mode ≡ ok mode
            → P (id, record { access_mode = mode; access_secret_name = ref.access_secret_name }))
          refs
      → All P acc.0
      → All P (add_configs ids refs acc).0
  unfolding add_configs add_config set_config
  add_configs-All P [] acc f h = h
  add_configs-All P (ref ∷ refs) acc f h =
      add_configs-All P refs _ f.1 (elim (Option-cases (dict_get ids ref.bucket_claim_name)) [
        | inl p ↦ rw p h
        | inr (id, p) ↦ rw p (elim (Result-cases (access_mode_to_rpc ref.access_mode)) [
          | inl (mode, q) ↦ rw q (dict_set-All P acc.0 id _ h (f.0 id mode p q))
          | inr (x, q) ↦ rw q h
        ])
      ])

  add_configs-HasUniqueKeys :
      (refs : List BucketClaimAccess) (acc : Configs)
      → HasUniqueKeys acc.0
      → HasUniqueKeys (add_configs ids refs acc).0
  unfolding add_configs add_config set_config
  add_configs-HasUniqueKeys [] acc h = h
  add_configs-HasUniqueKeys (ref ∷ refs) acc h =
      add_configs-HasUniqueKeys refs _ (elim (Option-cases (dict_get ids ref.bucket_claim_name)) [
        | inl p ↦ rw p h
        | inr (id, p) ↦ rw p (elim (Result-cases (access_mode_to_rpc ref.access_mode)) [
          | inl (mode, q) ↦ rw q (dict_set-HasUniqueKeys acc.0 id _ h)
          | inr (x, q) ↦ rw q h
        ])
      ])

  add_configs-keeps :
      (refs : List BucketClaimAccess) (acc : Configs) (id : String)
      → (add_configs ids refs acc).1 ≡ []
      → dict_has acc.0 id ≡ true
      → dict_has (add_configs ids refs acc).0 id ≡ true
  unfolding add_configs
  add_configs-keeps [] acc id h p = p
  add_configs-keeps (ref ∷ refs) acc id h p =
      let step =
        add_config-IsConfigured ref (dict_get ids ref.bucket_claim_name) acc
          (add_configs-stays ids refs _ h) in
      add_configs-keeps refs _ id h (
        subst (λ c. dict_has c.0 id ≡ true) (sym step.is_set)
          (dict_set-keeps acc.0 step.id id step.config (inr p)))

  -- Without an error each reference has a configuration under the bucket ID of its claim.
  add_configs-covers :
      (refs : List BucketClaimAccess) (acc : Configs)
      → (add_configs ids refs acc).1 ≡ []
      → All
          (λ ref.
            (id : String) × (dict_get ids ref.bucket_claim_name ≡ some id)
            × (dict_has (add_configs ids refs acc).0 id ≡ true))
          refs
  unfolding add_configs
  add_configs-covers [] acc h = tt
  add_configs-covers (ref ∷ refs) acc h =
      let step =
        add_config-IsConfigured ref (dict_get ids ref.bucket_claim_name) acc
          (add_configs-stays ids refs _ h) in
      (
        (
          step.id,
          step.is_id,
          add_configs-keeps refs _ step.id h (
              subst (λ c. dict_has c.0 step.id ≡ true) (sym step.is_set)
                (dict_set-keeps acc.0 step.id step.id step.config (inl refl))),
        ),
        add_configs-covers refs _ h,
      )

-- The configuration is that of a reference to a claim whose Bucket has the ID.
abbrev pub IsConfigOf : BucketAccess → String × BucketGrantAccessConfig → Type 0
IsConfigOf a e =
    Exists
      (λ ref.
        IsAccessed a ref.bucket_claim_name e.0
        × (IsMode ref.access_mode e.1.access_mode
            × (e.1.access_secret_name ≡ ref.access_secret_name)))
      a.spec.bucket_claims

pub generate-parts :
    (a : BucketAccess) (m : Dict BucketGrantAccessConfig)
    → generate_internal_accessed_bucket_configs a ≡ ok m
    → HasUniqueKeys m
      × All (IsConfigOf a) m
      × All
          (λ ref. (id : String) × IsAccessed a ref.bucket_claim_name id × (dict_has m id ≡ true))
          a.spec.bucket_claims
unfolding generate_internal_accessed_bucket_configs
generate-parts a m h =
    let ids = bucket_ids_by_claim_name a.status.accessed_buckets [] in
    let refs = a.spec.bucket_claims in
    let (same, no_error) = generated_ok (add_configs ids refs ([], [])) m h in
    let each =
      Exists-each
        (λ (e : String × BucketGrantAccessConfig) ref.
          IsAccessed a ref.bucket_claim_name e.0
          × (IsMode ref.access_mode e.1.access_mode
              × (e.1.access_secret_name ≡ ref.access_secret_name)))
        refs in
    (
      subst HasUniqueKeys same (add_configs-HasUniqueKeys ids refs ([], []) tt),
      subst (All (IsConfigOf a)) same (
          add_configs-All ids (IsConfigOf a) refs ([], [])
            (All-map
              (λ ref g id mode p q.
                g (id, record { access_mode = mode; access_secret_name = ref.access_secret_name })
                  (
                    mapped-IsAccessed a ref.bucket_claim_name id p,
                    (access_mode_to_rpc-IsMode ref.access_mode mode q, refl),
                  ))
              refs each)
            tt),
      All-map
          (λ ref (id, p, q). (
            id,
            mapped-IsAccessed a ref.bucket_claim_name id p,
            subst (λ c. dict_has c id ≡ true) same q,
          ))
          refs (add_configs-covers ids refs ([], []) no_error),
    )

pub rpc_grant_buckets_list-All :
    (P : GrantAccessedBucket → Type 0) (m : Dict BucketGrantAccessConfig)
    → All (λ e. P (record { bucket_id = e.0; access_mode = e.1.access_mode })) m
    → All P (rpc_grant_buckets_list m)
unfolding rpc_grant_buckets_list
rpc_grant_buckets_list-All P [] h = tt
rpc_grant_buckets_list-All P (e ∷ m) h = (h.0, rpc_grant_buckets_list-All P m h.1)

pub rpc_grant_buckets_list-has :
    (P : GrantAccessedBucket → Type 0) (m : Dict BucketGrantAccessConfig) (id : String)
    → ((b : GrantAccessedBucket) → b.bucket_id ≡ id → P b)
    → dict_has m id ≡ true
    → Exists P (rpc_grant_buckets_list m)
unfolding rpc_grant_buckets_list dict_get
rpc_grant_buckets_list-has P [] id f h = cc
rpc_grant_buckets_list-has P ((j, w) ∷ m) id f h = elim (Bool-cases (j == id)) [
  | inl t ↦ inl (f _ ((eq_iff j id).0 t))
  | inr t ↦ inr (rpc_grant_buckets_list-has P m id f (rw t at h))
]
