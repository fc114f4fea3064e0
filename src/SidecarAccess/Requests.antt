-- ===== src/SidecarAccess/Requests.antt =====
-- sidecar/pkg/reconciler/bucketaccess.go: the requests to the driver are made of what was handed over.
use container_object_storage.Prelude.{
  ◌≡◌, ◌∙◌, refl, sym, ap, subst, String, true, some, List, [], ◌∷◌, ◌==◌, Dict, dict_get, dict_set,
  dict_get-dict_set, All, contains, inl, inr, arith, eq_refl, Bool-cases, Option-cases,
}
use container_object_storage.Errors.{Result-cases, ok}
use container_object_storage.Errors.Laws.{ok_injective}
use container_object_storage.Api.Access.{BucketAccess, BucketClaimAccess, AccessedBucket}
use container_object_storage.Protocol.{api_to_rpc}
use container_object_storage.Translator.{authentication_type_to_rpc, access_mode_to_rpc}
use container_object_storage.World.Accesses.Handover.{
  handover, bucket_ids, IsShared, IsGrantFor, IsRevocationFor,
}
use container_object_storage.SidecarAccess.{grant_request, revoke_request}
use container_object_storage.SidecarAccess.Config.{
  InternalAccessConfig, BucketGrantAccessConfig, InternalGrantAccessConfig,
  InternalRevokeAccessConfig, Secrets, Configs, with_ok, new_internal_access_config,
  bucket_ids_by_claim_name, set_config, add_config, add_configs, generated,
  generate_internal_accessed_bucket_configs, new_internal_grant_access_config,
  rpc_grant_buckets_list, revoke_list, new_internal_revoke_access_config,
}

new_internal_access_config-IsShared :
    (a : BucketAccess) (c : InternalAccessConfig)
    → new_internal_access_config a ≡ ok c
    → IsShared (handover a) c.protocol c.authentication_type c.service_account_name c.parameters
unfolding new_internal_access_config with_ok
new_internal_access_config-IsShared a c h = elim (Result-cases (api_to_rpc a.spec.protocol)) [
  | inr (x, p) ↦ let h' = rw p at h in cc
  | inl (proto, p) ↦
      let h' = rw p at h in
      elim (Result-cases (authentication_type_to_rpc a.status.authentication_type)) [
        | inr (x, q) ↦ let h'' = rw q at h' in cc
        | inl (auth, q) ↦
            subst
              (λ d.
                IsShared (handover a) d.protocol d.authentication_type d.service_account_name
                  d.parameters)
              (ok_injective (rw q at h'))
              (record {
                is_protocol = p;
                is_authentication = q;
                is_service_account = refl;
                are_parameters = refl;
              })
      ]
]

-- The values of a map of texts are in a list.
abbrev AreIn : List String → Dict String → Type 0
AreIn ids m = (k id : String) → dict_get m k ≡ some id → contains ids id ≡ true

AreIn-nil : (ids : List String) → AreIn ids []
unfolding dict_get
AreIn-nil ids k id e = cc

bucket_ids_by_claim_name-AreIn :
    (ids : List String) (abs : List AccessedBucket) (m : Dict String)
    → All (λ ab. contains ids ab.bucket_id ≡ true) abs
    → AreIn ids m
    → AreIn ids (bucket_ids_by_claim_name abs m)
unfolding bucket_ids_by_claim_name
bucket_ids_by_claim_name-AreIn ids [] m h i = i
bucket_ids_by_claim_name-AreIn ids (ab ∷ abs) m h i =
    bucket_ids_by_claim_name-AreIn ids abs _ h.1 λ k id e.
      ground (arith, h.0, i k id, e, dict_get-dict_set m ab.bucket_claim_name k ab.bucket_id)

bucket_ids-contains :
    (ids : List String) (abs : List AccessedBucket)
    → ((id : String) → contains (bucket_ids abs) id ≡ true → contains ids id ≡ true)
    → All (λ ab. contains ids ab.bucket_id ≡ true) abs
unfolding contains
bucket_ids-contains ids [] k = tt
bucket_ids-contains ids (ab ∷ abs) k = (
  k ab.bucket_id (rw eq_refl refl),
  bucket_ids-contains ids abs (λ id c. k id (ground (arith, c))),
)

-- The keys of the configurations are in a list.
abbrev pub AreKeys : List String → Dict BucketGrantAccessConfig → Type 0
AreKeys ids m = All (λ e. contains ids e.0 ≡ true) m

dict_set-AreKeys :
    (ids : List String) (m : Dict BucketGrantAccessConfig) (k : String)
    (v : BucketGrantAccessConfig)
    → AreKeys ids m
    → contains ids k ≡ true
    → AreKeys ids (dict_set m k v)
unfolding dict_set
dict_set-AreKeys ids [] k v h c = (c, tt)
dict_set-AreKeys ids ((j, w) ∷ m) k v h c = elim (Bool-cases (j == k)) [
  | inl e ↦ rw e (c, h.1)
  | inr e ↦ rw e (h.0, dict_set-AreKeys ids m k v h.1 c)
]

add_configs-AreKeys :
    (ids : List String) (m : Dict String) (refs : List BucketClaimAccess) (acc : Configs)
    → AreIn ids m
    → AreKeys ids acc.0
    → AreKeys ids (add_configs m refs acc).0
unfolding add_configs add_config set_config
add_configs-AreKeys ids m [] acc i h = h
add_configs-AreKeys ids m (ref ∷ refs) acc i h =
    add_configs-AreKeys ids m refs _ i (elim (Option-cases (dict_get m ref.bucket_claim_name)) [
      | inl p ↦ rw p h
      | inr (id, p) ↦ rw p (elim (Result-cases (access_mode_to_rpc ref.access_mode)) [
        | inl (mode, q) ↦ rw q (dict_set-AreKeys ids acc.0 id _ h (i _ id p))
        | inr (x, q) ↦ rw q h
      ])
    ])

rpc_grant_buckets_list-AreKeys :
    (ids : List String) (m : Dict BucketGrantAccessConfig)
    → AreKeys ids m
    → All (λ b. contains ids b.bucket_id ≡ true) (rpc_grant_buckets_list m)
unfolding rpc_grant_buckets_list
rpc_grant_buckets_list-AreKeys ids [] h = tt
rpc_grant_buckets_list-AreKeys ids ((k, v) ∷ m) h = (h.0, rpc_grant_buckets_list-AreKeys ids m h.1)

revoke_list-bucket_ids :
    (abs : List AccessedBucket) (ids : List String)
    → revoke_list abs ≡ ok ids
    → ids ≡ bucket_ids abs
unfolding revoke_list with_ok
revoke_list-bucket_ids [] ids h = sym (ok_injective h)
revoke_list-bucket_ids (ab ∷ abs) ids h = elim (Bool-cases (ab.bucket_id == "")) [
  | inl p ↦ let h' = rw p at h in cc
  | inr p ↦ elim (Result-cases (revoke_list abs)) [
    | inl (rest, q) ↦
        let h' = rw q at (rw p at h) in
        sym (ok_injective h') ∙ ap (◌∷◌ ab.bucket_id) (revoke_list-bucket_ids abs rest q)
    | inr (x, q) ↦ let h' = rw q at (rw p at h) in cc
  ]
]

pub generated_ok :
    (acc : Configs) (m : Dict BucketGrantAccessConfig)
    → generated acc ≡ ok m
    → (acc.0 ≡ m) × (acc.1 ≡ [])
unfolding generated
generated_ok (configs, []) m h = (ok_injective h, refl)
generated_ok (configs, e ∷ es) m h = cc

generate-AreKeys :
    (a : BucketAccess) (m : Dict BucketGrantAccessConfig)
    → generate_internal_accessed_bucket_configs a ≡ ok m
    → AreKeys (bucket_ids a.status.accessed_buckets) m
unfolding generate_internal_accessed_bucket_configs
generate-AreKeys a m h =
    let abs = a.status.accessed_buckets in
    let ids = bucket_ids_by_claim_name abs [] in
    let i : AreIn (bucket_ids abs) ids =
      bucket_ids_by_claim_name-AreIn (bucket_ids abs) abs []
        (bucket_ids-contains (bucket_ids abs) abs (λ id c. c)) (AreIn-nil (bucket_ids abs)) in
    subst (AreKeys (bucket_ids abs)) (generated_ok _ m h).0
      (add_configs-AreKeys (bucket_ids abs) ids a.spec.bucket_claims ([], []) i tt)

-- A request for access is about what was handed over.
pub grant_request-IsGrantFor :
    (a : BucketAccess) (secrets : Secrets) (cfg : InternalGrantAccessConfig)
    → new_internal_grant_access_config a secrets ≡ ok cfg
    → IsGrantFor (handover a) (grant_request cfg)
unfolding new_internal_grant_access_config with_ok
grant_request-IsGrantFor a secrets cfg h = elim (Result-cases (new_internal_access_config a)) [
  | inr (x, p) ↦ let h' = rw p at h in cc
  | inl (c, p) ↦ elim (Result-cases (generate_internal_accessed_bucket_configs a)) [
    | inr (x, q) ↦ let h' = rw q at (rw p at h) in cc
    | inl (m, q) ↦
        subst (λ d. IsGrantFor (handover a) (grant_request d)) (ok_injective (rw q at (rw p at h)))
          (record {
            is_shared = new_internal_access_config-IsShared a c p;
            are_accessed = rpc_grant_buckets_list-AreKeys _ m (generate-AreKeys a m q);
          })
  ]
]

-- A request for the revocation of access is about all that was handed over.
pub revoke_request-IsRevocationFor :
    (a b : BucketAccess) (cfg : InternalRevokeAccessConfig)
    → new_internal_revoke_access_config a ≡ ok cfg
    → IsRevocationFor (handover a) (revoke_request b cfg)
unfolding new_internal_revoke_access_config with_ok
revoke_request-IsRevocationFor a b cfg h = elim (Result-cases (new_internal_access_config a)) [
  | inr (x, p) ↦ let h' = rw p at h in cc
  | inl (c, p) ↦ elim (Bool-cases (a.status.account_id == "")) [
    | inl n ↦ let h' = rw n at (rw p at h) in cc
    | inr n ↦ elim (Result-cases (revoke_list a.status.accessed_buckets)) [
      | inr (x, q) ↦ let h' = rw q at (rw n at (rw p at h)) in cc
      | inl (ids, q) ↦
          subst (λ d. IsRevocationFor (handover a) (revoke_request b d))
            (ok_injective (rw q at (rw n at (rw p at h))))
            (record {
              is_shared = new_internal_access_config-IsShared a c p;
              are_all = revoke_list-bucket_ids a.status.accessed_buckets ids q;
            })
    ]
  ]
]
