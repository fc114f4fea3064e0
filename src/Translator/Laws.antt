-- ===== src/Translator/Laws.antt =====
-- translator.go: which responses of the driver are accepted, and what of them reaches the API.
use container_object_storage.Prelude.{
  String, ◌≡◌, ◌↔◌, refl, Option, none, some, List, [], ◌∷◌, ◌++◌, Dict, dict_merge, dict_set,
}
use container_object_storage.Errors.{ok}
use container_object_storage.Rpc.{
  ObjectProtocolAndBucketInfo, CredentialInfo, S3BucketInfo, AzureBucketInfo, GcsBucketInfo,
}
use container_object_storage.Protocol.{
  RpcApiTranslator, object_protocol_s3, object_protocol_azure, object_protocol_gcs,
}
use container_object_storage.Protocol.S3.{s3_bucket_info_translator, s3_credential_translator}
use container_object_storage.Protocol.Azure.{
  azure_bucket_info_translator, azure_credential_translator,
}
use container_object_storage.Protocol.Gcs.{gcs_bucket_info_translator, gcs_credential_translator}
use container_object_storage.Translator.{
  ValidationConfig, translate, returned_protocols, bucket_info_to_api, credentials_to_api,
}
use container_object_storage.Translator.Parts.{
  AllTranslated, first_expected, second_expected, third_expected, collect_three,
}

-- The variables of the three protocols, one after the other.
abbrev pub variables : ObjectProtocolAndBucketInfo → Dict String
variables bi =
    s3_bucket_info_translator.rpc_to_api bi.s3
    ++ (azure_bucket_info_translator.rpc_to_api bi.azure
        ++ gcs_bucket_info_translator.rpc_to_api bi.gcs)

merged :
    (a : Option S3BucketInfo) (b : Option AzureBucketInfo) (c : Option GcsBucketInfo)
    → let bi : ObjectProtocolAndBucketInfo = record { s3 = a; azure = b; gcs = c } in
      bucket_info_to_api (some bi) none ≡ ok (returned_protocols bi, variables bi)
unfolding bucket_info_to_api translate dict_merge dict_set s3_bucket_info_translator
    azure_bucket_info_translator gcs_bucket_info_translator
merged none none none = refl
merged none none (some c) = refl
merged none (some b) none = refl
merged none (some b) (some c) = refl
merged (some a) none none = refl
merged (some a) none (some c) = refl
merged (some a) (some b) none = refl
merged (some a) (some b) (some c) = refl

-- With no validation the translation of a response never fails: it names the protocols that the
-- response has, and no variable of one protocol hides one of another.
pub bucket_info_to_api_unvalidated :
    (bi : ObjectProtocolAndBucketInfo)
    → bucket_info_to_api (some bi) none ≡ ok (returned_protocols bi, variables bi)
bucket_info_to_api_unvalidated bi = merged bi.s3 bi.azure bi.gcs

-- The response `r` is the one of its protocol, it is valid, and `out` is what is made of its
-- variables.
abbrev pub HasOnly {ℓ} :
    {R : Type 0} {A : Type ℓ}
    → RpcApiTranslator R
    → ValidationConfig
    → Option R
    → (Dict String → A)
    → A
    → Type ℓ
HasOnly {R = R} t v i make out =
    (r : R) × (i ≡ some r)
    × (t.validate (t.rpc_to_api (some r)) v.authentication_type ≡ none)
    × (out ≡ make (t.rpc_to_api (some r)))

module _ (bi : ObjectProtocolAndBucketInfo) (v : ValidationConfig)
    (out : List String × Dict String) where
  bucket_info_parts :
      (bucket_info_to_api (some bi) (some v) ≡ ok out)
      ↔ AllTranslated s3_bucket_info_translator azure_bucket_info_translator
          gcs_bucket_info_translator v bi.s3 bi.azure bi.gcs
          (λ all. (returned_protocols bi, all))
          out
  unfolding bucket_info_to_api
  bucket_info_parts = collect_three _ _ _ _ _ _ _ (λ all. (returned_protocols bi, all)) _ _ _ out

  s3_expected :
      v.expected_protocol ≡ object_protocol_s3
      → (bucket_info_to_api (some bi) (some v) ≡ ok out) ↔ (
          (bi.azure ≡ none)
          × (bi.gcs ≡ none)
          × HasOnly s3_bucket_info_translator v bi.s3 (λ all. (object_protocol_s3 ∷ [], all)) out)
  unfolding dict_merge dict_set s3_bucket_info_translator azure_bucket_info_translator
      gcs_bucket_info_translator returned_protocols
  s3_expected e =
      let p =
        first_expected s3_bucket_info_translator azure_bucket_info_translator
          gcs_bucket_info_translator v bi.s3 bi.azure bi.gcs (λ all. (returned_protocols bi, all))
          out e (λ h. cc) (λ h. cc) in
      (
        λ h.
            let (x, y, (r, ra, rv, ro)) = p.0 (bucket_info_parts.0 h) in
            (x, y, (r, ra, rv, rw (x, y, ra) at ro)),
        λ h.
            let (x, y, (r, ra, rv, ro)) = h in
            bucket_info_parts.1 (p.1 (x, y, (r, ra, rv, rw (x, y, ra) ro))),
      )

  azure_expected :
      v.expected_protocol ≡ object_protocol_azure
      → (bucket_info_to_api (some bi) (some v) ≡ ok out) ↔ (
          (bi.s3 ≡ none)
          × (bi.gcs ≡ none)
          × HasOnly azure_bucket_info_translator v bi.azure
              (λ all. (object_protocol_azure ∷ [], all))
              out)
  unfolding dict_merge dict_set s3_bucket_info_translator azure_bucket_info_translator
      gcs_bucket_info_translator returned_protocols
  azure_expected e =
      let p =
        second_expected s3_bucket_info_translator azure_bucket_info_translator
          gcs_bucket_info_translator v bi.s3 bi.azure bi.gcs (λ all. (returned_protocols bi, all))
          out (λ h. cc) e (λ h. cc) in
      (
        λ h.
            let (x, y, (r, ra, rv, ro)) = p.0 (bucket_info_parts.0 h) in
            (x, y, (r, ra, rv, rw (x, y, ra) at ro)),
        λ h.
            let (x, y, (r, ra, rv, ro)) = h in
            bucket_info_parts.1 (p.1 (x, y, (r, ra, rv, rw (x, y, ra) ro))),
      )

  gcs_expected :
      v.expected_protocol ≡ object_protocol_gcs
      → (bucket_info_to_api (some bi) (some v) ≡ ok out) ↔ (
          (bi.s3 ≡ none)
          × (bi.azure ≡ none)
          × HasOnly gcs_bucket_info_translator v bi.gcs
              (λ all. (object_protocol_gcs ∷ [], all))
              out)
  unfolding dict_merge dict_set s3_bucket_info_translator azure_bucket_info_translator
      gcs_bucket_info_translator returned_protocols
  gcs_expected e =
      let p =
        third_expected s3_bucket_info_translator azure_bucket_info_translator
          gcs_bucket_info_translator v bi.s3 bi.azure bi.gcs (λ all. (returned_protocols bi, all))
          out (λ h. cc) (λ h. cc) e in
      (
        λ h.
            let (x, y, (r, ra, rv, ro)) = p.0 (bucket_info_parts.0 h) in
            (x, y, (r, ra, rv, rw (x, y, ra) at ro)),
        λ h.
            let (x, y, (r, ra, rv, ro)) = h in
            bucket_info_parts.1 (p.1 (x, y, (r, ra, rv, rw (x, y, ra) ro))),
      )

-- A validated response is accepted exactly when it has valid bucket info of the expected protocol and
-- none of the other two; the result then names that protocol alone and holds its variables.
pub bucket_info_to_api_validated :
    (bi : ObjectProtocolAndBucketInfo) (v : ValidationConfig) (out : List String × Dict String)
    → (v.expected_protocol ≡ object_protocol_s3
        → (bucket_info_to_api (some bi) (some v) ≡ ok out) ↔ (
            (bi.azure ≡ none)
            × (bi.gcs ≡ none)
            × HasOnly s3_bucket_info_translator v bi.s3
                (λ all. (object_protocol_s3 ∷ [], all))
                out))
      × (v.expected_protocol ≡ object_protocol_azure
          → (bucket_info_to_api (some bi) (some v) ≡ ok out) ↔ (
              (bi.s3 ≡ none)
              × (bi.gcs ≡ none)
              × HasOnly azure_bucket_info_translator v bi.azure
                  (λ all. (object_protocol_azure ∷ [], all))
                  out))
      × (v.expected_protocol ≡ object_protocol_gcs
          → (bucket_info_to_api (some bi) (some v) ≡ ok out) ↔ (
              (bi.s3 ≡ none)
              × (bi.azure ≡ none)
              × HasOnly gcs_bucket_info_translator v bi.gcs
                  (λ all. (object_protocol_gcs ∷ [], all))
                  out))
bucket_info_to_api_validated bi v out =
    (s3_expected bi v out, azure_expected bi v out, gcs_expected bi v out)

module _ (ci : CredentialInfo) (v : ValidationConfig) (out : Dict String) where
  credential_parts :
      (credentials_to_api (some ci) v ≡ ok out)
      ↔ AllTranslated s3_credential_translator azure_credential_translator gcs_credential_translator
          v ci.s3 ci.azure ci.gcs
          (λ all. all)
          out
  unfolding credentials_to_api
  credential_parts = collect_three _ _ _ _ _ _ _ (λ all. all) _ _ _ out

  s3_credentials_expected :
      v.expected_protocol ≡ object_protocol_s3
      → (credentials_to_api (some ci) v ≡ ok out) ↔ (
          (ci.azure ≡ none)
          × (ci.gcs ≡ none)
          × HasOnly s3_credential_translator v ci.s3 (λ all. all) out)
  unfolding dict_merge dict_set s3_credential_translator azure_credential_translator
      gcs_credential_translator
  s3_credentials_expected e =
      let p =
        first_expected s3_credential_translator azure_credential_translator
          gcs_credential_translator v ci.s3 ci.azure ci.gcs (λ all. all) out e (λ h. cc)
          (λ h. cc) in
      (
        λ h. let (x, y, (r, ra, rv, ro)) = p.0 (credential_parts.0 h) in (x, y, (r, ra, rv, ro)),
        λ h. let (x, y, (r, ra, rv, ro)) = h in credential_parts.1 (p.1 (x, y, (r, ra, rv, ro))),
      )

  azure_credentials_expected :
      v.expected_protocol ≡ object_protocol_azure
      → (credentials_to_api (some ci) v ≡ ok out) ↔ (
          (ci.s3 ≡ none)
          × (ci.gcs ≡ none)
          × HasOnly azure_credential_translator v ci.azure (λ all. all) out)
  unfolding dict_merge dict_set s3_credential_translator azure_credential_translator
      gcs_credential_translator
  azure_credentials_expected e =
      let p =
        second_expected s3_credential_translator azure_credential_translator
          gcs_credential_translator v ci.s3 ci.azure ci.gcs (λ all. all) out (λ h. cc) e
          (λ h. cc) in
      (
        λ h. let (x, y, (r, ra, rv, ro)) = p.0 (credential_parts.0 h) in (x, y, (r, ra, rv, ro)),
        λ h. let (x, y, (r, ra, rv, ro)) = h in credential_parts.1 (p.1 (x, y, (r, ra, rv, ro))),
      )

  gcs_credentials_expected :
      v.expected_protocol ≡ object_protocol_gcs
      → (credentials_to_api (some ci) v ≡ ok out) ↔ (
          (ci.s3 ≡ none)
          × (ci.azure ≡ none)
          × HasOnly gcs_credential_translator v ci.gcs (λ all. all) out)
  unfolding dict_merge dict_set s3_credential_translator azure_credential_translator
      gcs_credential_translator
  gcs_credentials_expected e =
      let p =
        third_expected s3_credential_translator azure_credential_translator
          gcs_credential_translator v ci.s3 ci.azure ci.gcs (λ all. all) out (λ h. cc) (λ h. cc)
          e in
      (
        λ h. let (x, y, (r, ra, rv, ro)) = p.0 (credential_parts.0 h) in (x, y, (r, ra, rv, ro)),
        λ h. let (x, y, (r, ra, rv, ro)) = h in credential_parts.1 (p.1 (x, y, (r, ra, rv, ro))),
      )

-- Credentials are accepted exactly when they are valid credentials of the expected protocol and there
-- are none of the other two; the result then holds the variables of that protocol.
pub credentials_to_api_validated :
    (ci : CredentialInfo) (v : ValidationConfig) (out : Dict String)
    → (v.expected_protocol ≡ object_protocol_s3
        → (credentials_to_api (some ci) v ≡ ok out) ↔ (
            (ci.azure ≡ none)
            × (ci.gcs ≡ none)
            × HasOnly s3_credential_translator v ci.s3 (λ all. all) out))
      × (v.expected_protocol ≡ object_protocol_azure
          → (credentials_to_api (some ci) v ≡ ok out) ↔ (
              (ci.s3 ≡ none)
              × (ci.gcs ≡ none)
              × HasOnly azure_credential_translator v ci.azure (λ all. all) out))
      × (v.expected_protocol ≡ object_protocol_gcs
          → (credentials_to_api (some ci) v ≡ ok out) ↔ (
              (ci.s3 ≡ none)
              × (ci.azure ≡ none)
              × HasOnly gcs_credential_translator v ci.gcs (λ all. all) out))
credentials_to_api_validated ci v out = (
  s3_credentials_expected ci v out,
  azure_credentials_expected ci v out,
  gcs_credentials_expected ci v out,
)
