-- ===== src/SidecarAccess/Grant/Served.antt =====
-- sidecar/pkg/reconciler/bucketaccess.go: the Buckets and the Secrets of an accepted grant.
use container_object_storage.Prelude.{
  ◌≡◌, ◌∙◌, refl, sym, ap, subst, String, true, none, some, List, [], ◌∷◌, Dict, dict_get, dict_has,
  dict_get-All, Entries-dict_get, All, Exists, inl, inr, Option-cases,
}
use container_object_storage.Errors.{ok}
use container_object_storage.Rpc.{DriverGrantBucketAccessResponse}
use container_object_storage.Api.Access.{BucketAccess}
use container_object_storage.World.{History}
use container_object_storage.SidecarAccess.Config.{
  BucketGrantAccessConfig, InternalGrantAccessConfig, generate_internal_accessed_bucket_configs,
}
use container_object_storage.SidecarAccess.Granted.{
  GrantedAccessApiDetails, translate_driver_grant_bucket_access_response_to_api,
  validate_granted_access, collect_all_granted,
}
use container_object_storage.SidecarAccess.Storing.{IsStoredFor}
use container_object_storage.SidecarAccess.Answer.{validate_granted_access-keys}
use container_object_storage.SidecarAccess.Ready.{All-map}
use container_object_storage.SidecarAccess.{grant_request}
use container_object_storage.SidecarAccess.Grant.Accepted.{
  IsKnown, credentials_to_api-AreCredentials, translate-parts, collect_all_granted-accepts,
  collect_all_granted-All,
}
use container_object_storage.SidecarAccess.Grant.Variables.{
  AreCredentials-HasUniqueKeys, IsInfo-HasUniqueKeys, granted_data-HasVariables,
}
use container_object_storage.SidecarAccess.Grant.Asked.{
  Exists-each, IsConfigOf, generate-parts, rpc_grant_buckets_list-All, rpc_grant_buckets_list-has,
}
use container_object_storage.SidecarAccess.Grant.{
  expected_of, AreCredentials, IsInfo, IsAccessed, IsAnswer, IsStored, IsServed, IsAskedFor,
}

Exists-map :
    {A : Type 0} {P Q : A → Type 0}
    → ((x : A) → P x → Q x)
    → (xs : List A) → Exists P xs
    → Exists Q xs
Exists-map f [] h = h
Exists-map f (x ∷ xs) (inl p) = inl (f x p)
Exists-map f (x ∷ xs) (inr p) = inr (Exists-map f xs p)

dict_has-found {ℓ} :
    {V : Type ℓ} (m : Dict V) (k : String) → dict_has m k ≡ true → (v : V) × (dict_get m k ≡ some v)
dict_has-found m k h = elim (Option-cases (dict_get m k)) [
  | inl p ↦ let q = rw p at h in cc
  | inr p ↦ p
]

module _ (a : BucketAccess) (cfg : InternalGrantAccessConfig) (r : DriverGrantBucketAccessResponse)
    (d : GrantedAccessApiDetails)
    (is_config : generate_internal_accessed_bucket_configs a ≡ ok cfg.access_configs_by_bucket_id)
    (known : IsKnown a.spec.protocol)
    (is_translated : translate_driver_grant_bucket_access_response_to_api r (expected_of a) ≡ ok d)
    (is_valid : validate_granted_access cfg d ≡ none) where
  pub credentials-AreCredentials :
      AreCredentials (expected_of a) r.credentials d.shared_credential_info
  credentials-AreCredentials =
      credentials_to_api-AreCredentials (expected_of a) r.credentials d.shared_credential_info known
        (translate-parts r (expected_of a) d is_translated).0

  infos :
      collect_all_granted (expected_of a) 0 r.buckets ([], []) ≡ (d.bucket_info_by_bucket_id, [])
  infos = (translate-parts r (expected_of a) d is_translated).1

  -- The answer has an element for each entry of the map of the infos.
  abbrev IsInfoOf : String × Dict String → Type 0
  IsInfoOf e =
      Exists (λ b. (b.bucket_id ≡ e.0) × IsInfo (expected_of a) b.bucket_info e.1) r.buckets

  infos-IsInfoOf : All IsInfoOf d.bucket_info_by_bucket_id
  infos-IsInfoOf =
      subst (λ m. All IsInfoOf m) (ap (λ j. j.0) infos)
        (collect_all_granted-All (expected_of a) IsInfoOf 0 r.buckets ([], []) known
          (ap (λ j. j.1) infos)
          (All-map (λ b f info i. f (b.bucket_id, info) (refl, i)) r.buckets
            (Exists-each
              (λ (e : String × Dict String) b.
                (b.bucket_id ≡ e.0) × IsInfo (expected_of a) b.bucket_info e.1)
              r.buckets))
          tt)

  pub response-AreAnswers : All (IsAnswer a (grant_request cfg)) r.buckets
  response-AreAnswers =
      All-map
        (λ b (has_id, (p, i)). (
          has_id,
          (
            rpc_grant_buckets_list-has (λ asked. asked.bucket_id ≡ b.bucket_id)
                cfg.access_configs_by_bucket_id b.bucket_id (λ asked e. e)
                (validate_granted_access-keys cfg d is_valid b.bucket_id
                  ∙ (ap (λ j. dict_has j.0 b.bucket_id) (sym infos) ∙ p)),
            i,
          ),
        ))
        r.buckets
        (collect_all_granted-accepts (expected_of a) 0 r.buckets ([], []) known
          (ap (λ j. j.1) infos))

  pub references-AreAskedFor : All (IsAskedFor a (grant_request cfg)) a.spec.bucket_claims
  references-AreAskedFor =
      All-map
        (λ ref (id, accessed, p).
          rpc_grant_buckets_list-has (λ asked. IsAccessed a ref.bucket_claim_name asked.bucket_id)
            cfg.access_configs_by_bucket_id id
            (λ asked e. subst (λ i. IsAccessed a ref.bucket_claim_name i) (sym e) accessed) p)
        a.spec.bucket_claims (generate-parts a cfg.access_configs_by_bucket_id is_config).2

  module _ (h : History) (are_stored : All (IsStoredFor cfg d h) d.bucket_info_by_bucket_id) where
    configured-IsStored :
        (id : String) (c : BucketGrantAccessConfig)
        → dict_get cfg.access_configs_by_bucket_id id ≡ some c
        → IsStored a r d.shared_credential_info id h c.access_secret_name
    configured-IsStored id c p =
        let has : dict_has cfg.access_configs_by_bucket_id id ≡ true = rw p refl in
        let (info, q) =
          dict_has-found d.bucket_info_by_bucket_id id
            (sym (validate_granted_access-keys cfg d is_valid id) ∙ has) in
        let (c', p', (s, name, data_of, written)) =
          dict_get-All (IsStoredFor cfg d h) d.bucket_info_by_bucket_id id info are_stored q in
        let z : some c' ≡ some c = sym p' ∙ p in
        let same : c' ≡ c = cc in
        Exists-map
          (λ b (e, i). (
            e,
            (
              info,
              i,
              (
                s,
                name ∙ ap (λ j. j.access_secret_name) same,
                (
                  λ k.
                      ap (λ m. dict_get m k) data_of
                      ∙ granted_data-HasVariables d.shared_credential_info info
                          (AreCredentials-HasUniqueKeys (expected_of a) r.credentials _
                            credentials-AreCredentials)
                          (IsInfo-HasUniqueKeys (expected_of a) b.bucket_info info i) k,
                  written,
                ),
              ),
            ),
          ))
          r.buckets (dict_get-All IsInfoOf d.bucket_info_by_bucket_id id info infos-IsInfoOf q)

    pub request-AreServed :
        All (IsServed a r d.shared_credential_info h) (grant_request cfg).buckets
    request-AreServed =
        let (unique, configs, _) = generate-parts a cfg.access_configs_by_bucket_id is_config in
        rpc_grant_buckets_list-All (IsServed a r d.shared_credential_info h)
          cfg.access_configs_by_bucket_id
          (All-map
            (λ (id, c) p.
              Exists-map
                (λ ref (accessed, (mode, name)). (
                  accessed,
                  (
                    mode,
                    subst (λ n. IsStored a r d.shared_credential_info id h n) name
                        (configured-IsStored id c p),
                  ),
                ))
                a.spec.bucket_claims
                (dict_get-All (IsConfigOf a) cfg.access_configs_by_bucket_id id c configs p))
            cfg.access_configs_by_bucket_id
            (Entries-dict_get cfg.access_configs_by_bucket_id unique))
