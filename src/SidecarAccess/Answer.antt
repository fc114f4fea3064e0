-- ===== src/SidecarAccess/Answer.antt =====
-- sidecar/pkg/reconciler/bucketaccess.go: what the configuration of a grant and its answer are made of.
use container_object_storage.Prelude.{
  ◌≡◌, ◌∙◌, ◌≢◌, refl, sym, ap, String, some, List, [], ◌∷◌, inl, inr, arith, eq_iff, ◌==◌,
  Bool-cases, Dict, ℕ, suc, Bool, true, false, none, subst, dict_get, dict_has,
}
use Prim.Native.String.{◌++◌ as append}
use container_object_storage.Errors.{errorf, Result, Result-cases, ok, err, error_if}
use container_object_storage.Api.Access.{BucketAccess}
use container_object_storage.Rpc.{GrantedBucketInfo, DriverGrantBucketAccessResponse}
use container_object_storage.Protocol.{api_to_rpc}
use container_object_storage.Translator.{ValidationConfig, credentials_to_api, bucket_info_to_api}
use container_object_storage.SidecarAccess.Config.{
  Secrets, BucketGrantAccessConfig, InternalGrantAccessConfig, with_ok, new_internal_access_config,
  InternalAccessConfig, generate_internal_accessed_bucket_configs, new_internal_grant_access_config,
}
use container_object_storage.SidecarAccess.Granted.{
  missing_keys, validate_granted_access, GrantedAccessApiDetails, Infos, collect_credentials,
  granted, collect_info, collect_granted, collect_all_granted,
  translate_driver_grant_bucket_access_response_to_api,
}
use container_object_storage.Errors.Laws.{ok_injective, append_ne_nil, append_eq_nil, error_of-none}

new_internal_access_config-protocol :
    (b : BucketAccess) (c : InternalAccessConfig)
    → new_internal_access_config b ≡ ok c
    → (n : ℕ) × (api_to_rpc b.spec.protocol ≡ ok n)
unfolding new_internal_access_config with_ok
new_internal_access_config-protocol b c h = elim (Result-cases (api_to_rpc b.spec.protocol)) [
  | inl (n, p) ↦ (n, p)
  | inr (x, p) ↦ let q = rw p at h in cc
]

pub new_internal_grant_access_config-fields :
    (b : BucketAccess) (m : Secrets) (cfg : InternalGrantAccessConfig)
    → new_internal_grant_access_config b m ≡ ok cfg
    → (cfg.account_name ≡ append "ba-" b.metadata.uid)
      × (cfg.secrets_by_name ≡ m)
      × (generate_internal_accessed_bucket_configs b ≡ ok cfg.access_configs_by_bucket_id)
      × ((n : ℕ) × (api_to_rpc b.spec.protocol ≡ ok n))
unfolding new_internal_grant_access_config with_ok
new_internal_grant_access_config-fields b m cfg h =
    elim (Result-cases (new_internal_access_config b)) [
      | inr (x, p) ↦ let q = rw p at h in cc
      | inl (c, p) ↦
          let h' = rw p at h in
          elim (Result-cases (generate_internal_accessed_bucket_configs b)) [
            | inr (x, q) ↦ let r = rw q at h' in cc
            | inl (d, q) ↦
                let r = rw q at h' in
                (
                  ap account_name_of (sym r),
                  ap secrets_of (sym r),
                  q ∙ ap ok (ap configs_of r),
                  new_internal_access_config-protocol b c p,
                )
          ]
    ]
  where
    account_name_of : Result InternalGrantAccessConfig → String
    account_name_of (ok c) = c.account_name
    account_name_of (err e) = ""

    configs_of : Result InternalGrantAccessConfig → Dict BucketGrantAccessConfig
    configs_of (ok c) = c.access_configs_by_bucket_id
    configs_of (err e) = []

    secrets_of : Result InternalGrantAccessConfig → Secrets
    secrets_of (ok c) = c.secrets_by_name
    secrets_of (err e) = []

collect_granted-stays :
    (v : ValidationConfig) (i : ℕ) (b : GrantedBucketInfo) (acc : Infos)
    → (collect_granted v i b acc).1 ≡ []
    → acc.1 ≡ []
unfolding collect_granted collect_info
collect_granted-stays v i b (m, errs) h = elim (Bool-cases (b.bucket_id == "")) [
  | inl t ↦ absurd (append_ne_nil errs _ (rw t at h))
  | inr t ↦
      let h' = rw t at h in
      elim (Result-cases (bucket_info_to_api b.bucket_info (some v))) [
        | inl ((ps, n), p) ↦ rw p at h'
        | inr (x, p) ↦ absurd (append_ne_nil errs _ (rw p at h'))
      ]
]

-- An error stays in the list.
pub collect_all_granted-stays :
    (v : ValidationConfig) (i : ℕ) (bs : List GrantedBucketInfo) (acc : Infos)
    → (collect_all_granted v i bs acc).1 ≡ []
    → acc.1 ≡ []
unfolding collect_all_granted
collect_all_granted-stays v i [] acc h = h
collect_all_granted-stays v i (b ∷ bs) acc h =
    collect_granted-stays v i b acc
      (collect_all_granted-stays v (suc i) bs (collect_granted v i b acc) h)

pub granted-ok :
    (id : String) (c : Dict String) (v : Infos) (d : GrantedAccessApiDetails)
    → granted id c v ≡ ok d
    → (d.account_id ≡ id)
      × (v.1 ≡ [])
      × (c ≡ d.shared_credential_info)
      × (v.0 ≡ d.bucket_info_by_bucket_id)
unfolding granted
granted-ok id c (m, []) d h =
    let e = ok_injective h in
    (
      ap (λ j. j.account_id) (sym e),
      refl,
      ap (λ j. j.shared_credential_info) e,
      ap (λ j. j.bucket_info_by_bucket_id) e,
    )
granted-ok id c (m, e ∷ es) d h = cc

collect_credentials-stays :
    (id : String) (r : Result (Dict String)) → (collect_credentials id r).1 ≡ [] → id ≢ ""
unfolding collect_credentials
collect_credentials-stays id (ok c) h = ground (arith, eq_iff id "")
collect_credentials-stays id (err e) h =
    ground
      (arith, eq_iff id "", append_ne_nil (error_if (id == "") (errorf "missing account ID" [])))

-- A response that is accepted has an account ID, and keeps it.
pub translate-account_id :
    (resp : DriverGrantBucketAccessResponse) (v : ValidationConfig) (d : GrantedAccessApiDetails)
    → translate_driver_grant_bucket_access_response_to_api resp v ≡ ok d
    → (d.account_id ≡ resp.account_id) × (resp.account_id ≢ "")
unfolding translate_driver_grant_bucket_access_response_to_api
translate-account_id resp v d h =
    let (p, q, _, _) = granted-ok _ _ _ d h in
    (
      p,
      collect_credentials-stays _ (credentials_to_api resp.credentials v)
          (collect_all_granted-stays v 0 resp.buckets _ q),
    )

iff_equal : (b c : Bool) → (b ≡ true → c ≡ true) → (c ≡ true → b ≡ true) → b ≡ c
iff_equal true c f g = sym (f refl)
iff_equal false true f g = g refl
iff_equal false false f g = refl

missing_keys-nil {ℓ κ} :
    {A : Type ℓ} {B : Type κ} (format : String) (m : Dict A) (others : Dict B) (id : String)
    → missing_keys format m others ≡ []
    → dict_has m id ≡ true
    → dict_has others id ≡ true
unfolding missing_keys dict_get
missing_keys-nil format [] others id h p = cc
missing_keys-nil format ((k, v) ∷ m) others id h p = elim (Bool-cases (dict_has others k)) [
  | inl t ↦ elim (Bool-cases (k == id)) [
    | inl e ↦ subst (λ i. dict_has others i ≡ true) ((eq_iff k id).0 e) t
    | inr e ↦ missing_keys-nil format m others id (rw t at h) (rw e at p)
  ]
  | inr t ↦ let q = rw t at h in cc
]

-- A grant that is accepted has just the bucket IDs that were asked for.
pub validate_granted_access-keys :
    (cfg : InternalGrantAccessConfig) (d : GrantedAccessApiDetails)
    → validate_granted_access cfg d ≡ none
    → (id : String)
    → dict_has cfg.access_configs_by_bucket_id id ≡ dict_has d.bucket_info_by_bucket_id id
unfolding validate_granted_access
validate_granted_access-keys cfg d h id =
    let (p, q) = append_eq_nil _ _ (error_of-none _ _ h) in
    iff_equal _ _
      (missing_keys-nil _ cfg.access_configs_by_bucket_id d.bucket_info_by_bucket_id id p)
      (missing_keys-nil _ d.bucket_info_by_bucket_id cfg.access_configs_by_bucket_id id q)
