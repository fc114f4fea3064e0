-- ===== src/Protocol/Laws.antt =====
-- internal/protocol: round trips between the RPC types and the API, and what validation accepts.
use container_object_storage.Prelude.{
  ℕ, String, ◌≡◌, ◌≢◌, ◌↔◌, ◌⊎◌, refl, true, Option, none, some, arith, eq_iff, nat_eq,
  if◌then◌else◌, contains, Bool-cases, inl, inr,
}
use container_object_storage.Errors.{ok}
use container_object_storage.Api.Access.{key_authentication, service_account_authentication}
use container_object_storage.Rpc.{
  S3BucketInfo, S3CredentialInfo, AzureBucketInfo, AzureCredentialInfo, GcsBucketInfo,
  GcsCredentialInfo,
}
use container_object_storage.Protocol.{
  rpc_to_api, api_to_rpc, RpcApiTranslator, object_protocol_s3, object_protocol_azure,
  object_protocol_gcs,
}
use container_object_storage.Protocol.S3.{
  s3_bucket_info_translator, s3_credential_translator, style_to_api, style_to_rpc,
  valid_s3_addressing_styles,
}
use container_object_storage.Protocol.Azure.{
  azure_bucket_info_translator, azure_credential_translator,
}
use container_object_storage.Protocol.Gcs.{gcs_bucket_info_translator, gcs_credential_translator}

azure_ne_gcs : object_protocol_azure ≢ object_protocol_gcs
azure_ne_gcs h = cc

s3_ne_azure : object_protocol_s3 ≢ object_protocol_azure
s3_ne_azure h = cc

s3_ne_gcs : object_protocol_s3 ≢ object_protocol_gcs
s3_ne_gcs h = cc

key_ne_service_account : key_authentication ≢ service_account_authentication
key_ne_service_account h = cc

-- A protocol of the driver and one of the API are translated to one another or not at all.
pub rpc_to_api-iff-api_to_rpc : (p : ℕ) (a : String) → (rpc_to_api p ≡ ok a) ↔ (api_to_rpc a ≡ ok p)
unfolding rpc_to_api api_to_rpc
rpc_to_api-iff-api_to_rpc p a = (
  λ h. ground (
    arith,
    eq_iff object_protocol_s3 a,
    eq_iff object_protocol_azure a,
    eq_iff object_protocol_gcs a,
    s3_ne_azure,
    s3_ne_gcs,
    azure_ne_gcs,
  ),
  λ h. ground (
    arith,
    eq_iff object_protocol_s3 a,
    eq_iff object_protocol_azure a,
    eq_iff object_protocol_gcs a,
    s3_ne_azure,
    s3_ne_gcs,
    azure_ne_gcs,
  ),
)

-- A value that the translator writes for the RPC type reads back as that value.
abbrev pub RoundTrips : {R : Type 0} → RpcApiTranslator R → R → Type 0
RoundTrips t r = t.api_to_rpc (t.rpc_to_api (some r)) ≡ some r

-- Path style is 1 and virtual-hosted style is 2; any other style, or none, is read back as UNKNOWN.
pub known_style : Option ℕ → ℕ
known_style none = 0
known_style (some s) = if nat_eq s 1 then 1 else if nat_eq s 2 then 2 else 0

style_round_trip : (o : Option ℕ) → style_to_rpc (style_to_api o) ≡ known_style o
unfolding style_to_api style_to_rpc known_style
style_round_trip none = refl
style_round_trip (some n) = elim (Bool-cases (nat_eq n 1)) [
  | inl p ↦ rw p
  | inr p ↦ elim (Bool-cases (nat_eq n 2)) [ inl q ↦ rw (p, q) | inr q ↦ rw (p, q) ]
]

-- S3 bucket info is read back as it was written, except that an addressing style other than path and
-- virtual, or a missing one, becomes the style UNKNOWN.
pub s3_bucket_info_round_trip :
    (b : S3BucketInfo)
    → s3_bucket_info_translator.api_to_rpc (s3_bucket_info_translator.rpc_to_api (some b))
      ≡ some (record b { addressing_style = some (known_style b.addressing_style) })
unfolding s3_bucket_info_translator
s3_bucket_info_round_trip b = rw style_round_trip

-- Bucket info of Azure and GCS, and the credentials of all three protocols, are read back as they
-- were written.
pub round_trips :
    ((b : AzureBucketInfo) → RoundTrips azure_bucket_info_translator b)
    × ((b : GcsBucketInfo) → RoundTrips gcs_bucket_info_translator b)
    × ((c : S3CredentialInfo) → RoundTrips s3_credential_translator c)
    × ((c : AzureCredentialInfo) → RoundTrips azure_credential_translator c)
    × ((c : GcsCredentialInfo) → RoundTrips gcs_credential_translator c)
unfolding azure_bucket_info_translator gcs_bucket_info_translator s3_credential_translator
    azure_credential_translator gcs_credential_translator
round_trips = (λ b. refl, λ b. refl, λ c. refl, λ c. refl, λ c. refl)

-- Validation accepts what the translator wrote.
abbrev pub Accepts : {R : Type 0} → RpcApiTranslator R → R → String → Type 0
Accepts t r auth = t.validate (t.rpc_to_api (some r)) auth ≡ none

-- The styles that validation accepts.
style_is_valid :
    (o : Option ℕ)
    → (contains valid_s3_addressing_styles (style_to_api o) ≡ true) ↔ ((o ≡ some 1) ⊎ (o ≡ some 2))
unfolding style_to_api contains
style_is_valid none = (λ h. cc, λ h. ground arith)
style_is_valid (some n) = elim (Bool-cases (nat_eq n 1)) [
  | inl p ↦ rw p (λ h. ground arith, λ h. refl)
  | inr p ↦ elim (Bool-cases (nat_eq n 2)) [
    | inl q ↦ rw (p, q) (λ h. ground arith, λ h. refl)
    | inr q ↦ rw (p, q) (λ h. cc, λ h. ground arith)
  ]
]

s3_bucket_info-Accepts :
    (b : S3BucketInfo) (auth : String)
    → Accepts s3_bucket_info_translator b auth ↔ (
        (b.bucket_id ≢ "")
        × (b.endpoint ≢ "")
        × (b.region ≢ "")
        × ((b.addressing_style ≡ some 1) ⊎ (b.addressing_style ≡ some 2)))
unfolding s3_bucket_info_translator
s3_bucket_info-Accepts b auth =
    let style = style_is_valid b.addressing_style in
    let valid = contains valid_s3_addressing_styles (style_to_api b.addressing_style) in
    (
      λ h. ground (arith, eq_iff b.bucket_id "", eq_iff b.endpoint "", eq_iff b.region ""),
      λ h. ground (arith, eq_iff b.bucket_id "", eq_iff b.endpoint "", eq_iff b.region ""),
    )

azure_bucket_info-Accepts :
    (b : AzureBucketInfo) (auth : String)
    → Accepts azure_bucket_info_translator b auth ↔ (b.storage_account ≢ "")
unfolding azure_bucket_info_translator
azure_bucket_info-Accepts b auth = (
  λ h. ground (arith, eq_iff b.storage_account ""),
  λ h. ground (arith, eq_iff b.storage_account ""),
)

gcs_bucket_info-Accepts :
    (b : GcsBucketInfo) (auth : String)
    → Accepts gcs_bucket_info_translator b auth ↔ ((b.bucket_name ≢ "") × (b.project_id ≢ ""))
unfolding gcs_bucket_info_translator
gcs_bucket_info-Accepts b auth = (
  λ h. ground (arith, eq_iff b.bucket_name "", eq_iff b.project_id ""),
  λ h. ground (arith, eq_iff b.bucket_name "", eq_iff b.project_id ""),
)

s3_credential-Accepts :
    (c : S3CredentialInfo) (auth : String)
    → Accepts s3_credential_translator c auth
      ↔ (auth ≡ key_authentication → (c.access_key_id ≢ "") × (c.access_secret_key ≢ ""))
unfolding s3_credential_translator
s3_credential-Accepts c auth = (
  λ h e. ground (
    arith,
    eq_iff auth key_authentication,
    eq_iff c.access_key_id "",
    eq_iff c.access_secret_key "",
  ),
  λ h. ground (
    arith,
    eq_iff auth key_authentication,
    eq_iff c.access_key_id "",
    eq_iff c.access_secret_key "",
  ),
)

azure_credential-Accepts :
    (c : AzureCredentialInfo) (auth : String)
    → Accepts azure_credential_translator c auth ↔ (auth ≡ key_authentication → c.access_token ≢ "")
unfolding azure_credential_translator
azure_credential-Accepts c auth = (
  λ h e. ground (arith, eq_iff auth key_authentication, eq_iff c.access_token ""),
  λ h. ground (arith, eq_iff auth key_authentication, eq_iff c.access_token ""),
)

gcs_credential-Accepts :
    (c : GcsCredentialInfo) (auth : String)
    → Accepts gcs_credential_translator c auth ↔ (
        (auth ≡ key_authentication → (c.access_id ≢ "") × (c.access_secret ≢ ""))
        × (auth ≡ service_account_authentication
            → (c.private_key_name ≢ "") × (c.service_account ≢ "")))
unfolding gcs_credential_translator
gcs_credential-Accepts c auth = (
  λ h. (
    λ e.
        ground
          (arith, eq_iff auth key_authentication, eq_iff c.access_id "", eq_iff c.access_secret ""),
    λ e. ground (
      arith,
      eq_iff auth key_authentication,
      eq_iff auth service_account_authentication,
      key_ne_service_account,
      eq_iff c.private_key_name "",
      eq_iff c.service_account "",
    ),
  ),
  λ h. ground (
    arith,
    eq_iff auth key_authentication,
    eq_iff auth service_account_authentication,
    key_ne_service_account,
    eq_iff c.access_id "",
    eq_iff c.access_secret "",
    eq_iff c.private_key_name "",
    eq_iff c.service_account "",
  ),
)

-- Validation of translated bucket info accepts it exactly when: for S3 the ID, the endpoint and the
-- region are set and the addressing style is path or virtual; for Azure the storage account is set;
-- for GCS the bucket's name and the project's ID are set. The authentication type does not matter.
pub bucket_info-Accepts :
    (auth : String)
    → ((b : S3BucketInfo)
        → Accepts s3_bucket_info_translator b auth ↔ (
            (b.bucket_id ≢ "")
            × (b.endpoint ≢ "")
            × (b.region ≢ "")
            × ((b.addressing_style ≡ some 1) ⊎ (b.addressing_style ≡ some 2))))
      × ((b : AzureBucketInfo)
          → Accepts azure_bucket_info_translator b auth ↔ (b.storage_account ≢ ""))
      × ((b : GcsBucketInfo)
          → Accepts gcs_bucket_info_translator b auth
            ↔ ((b.bucket_name ≢ "") × (b.project_id ≢ "")))
bucket_info-Accepts auth = (
  λ b. s3_bucket_info-Accepts b auth,
  λ b. azure_bucket_info-Accepts b auth,
  λ b. gcs_bucket_info-Accepts b auth,
)

-- Validation of translated credentials accepts them exactly when, with the authentication type Key,
-- the S3 key ID and secret key, the Azure token, or the GCS access ID and secret are set, and, with
-- the type ServiceAccount, the GCS private key's name and service account are set.
pub credential-Accepts :
    (auth : String)
    → ((c : S3CredentialInfo)
        → Accepts s3_credential_translator c auth
          ↔ (auth ≡ key_authentication → (c.access_key_id ≢ "") × (c.access_secret_key ≢ "")))
      × ((c : AzureCredentialInfo)
          → Accepts azure_credential_translator c auth
            ↔ (auth ≡ key_authentication → c.access_token ≢ ""))
      × ((c : GcsCredentialInfo)
          → Accepts gcs_credential_translator c auth ↔ (
              (auth ≡ key_authentication → (c.access_id ≢ "") × (c.access_secret ≢ ""))
              × (auth ≡ service_account_authentication
                  → (c.private_key_name ≢ "") × (c.service_account ≢ ""))))
credential-Accepts auth = (
  λ c. s3_credential-Accepts c auth,
  λ c. azure_credential-Accepts c auth,
  λ c. gcs_credential-Accepts c auth,
)
