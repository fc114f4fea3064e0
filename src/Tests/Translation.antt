-- ===== src/Tests/Translation.antt =====
-- The translations between the driver's types and the API, and their validation.
use container_object_storage.Prelude.{◌≡◌, ◌≢◌, ◌↔◌, ◌⊎◌, none, some, List, [], ◌∷◌, String, Dict}
use container_object_storage.Errors.{ok}
use container_object_storage.Api.Access.{key_authentication, service_account_authentication}
use container_object_storage.Rpc.{
  ObjectProtocolAndBucketInfo, CredentialInfo, S3BucketInfo, AzureBucketInfo, GcsBucketInfo,
  S3CredentialInfo, AzureCredentialInfo, GcsCredentialInfo,
}
use container_object_storage.Protocol.{rpc_to_api, api_to_rpc}
use container_object_storage.Protocol.Laws
use container_object_storage.Protocol.S3.{s3_bucket_info_translator, s3_credential_translator}
use container_object_storage.Protocol.Azure.{
  azure_bucket_info_translator, azure_credential_translator,
}
use container_object_storage.Protocol.Gcs.{gcs_bucket_info_translator, gcs_credential_translator}
use container_object_storage.Translator.{ValidationConfig, bucket_info_to_api, credentials_to_api}
use container_object_storage.Translator.Laws.{
  HasOnly, bucket_info_to_api_validated, credentials_to_api_validated,
}

abbrev info : S3BucketInfo
info = record {
  bucket_id = "backend-7";
  endpoint = "https://s3";
  region = "eu-1";
  addressing_style = some 1;
}

abbrev response : ObjectProtocolAndBucketInfo
response = record { s3 = some info; azure = none; gcs = none }

abbrev credentials : CredentialInfo
credentials = record {
  s3 = some (record { access_key_id = "id"; access_secret_key = "secret" });
  azure = none;
  gcs = none;
}

abbrev config : ValidationConfig
config = record { expected_protocol = "S3"; authentication_type = "Key" }

rpc_to_api-iff-api_to_rpc_example : (rpc_to_api 1 ≡ ok "S3") ↔ (api_to_rpc "S3" ≡ ok 1)
rpc_to_api-iff-api_to_rpc_example = Laws.rpc_to_api-iff-api_to_rpc 1 "S3"

s3_bucket_info_round_trip_example :
    s3_bucket_info_translator.api_to_rpc (s3_bucket_info_translator.rpc_to_api (some info))
    ≡ some (record info { addressing_style = some (Laws.known_style (some 1)) })
s3_bucket_info_round_trip_example = Laws.s3_bucket_info_round_trip info

bucket_info-Accepts_example :
    ((b : S3BucketInfo)
      → Laws.Accepts s3_bucket_info_translator b "Key" ↔ (
          (b.bucket_id ≢ "")
          × (b.endpoint ≢ "")
          × (b.region ≢ "")
          × ((b.addressing_style ≡ some 1) ⊎ (b.addressing_style ≡ some 2))))
    × ((b : AzureBucketInfo)
        → Laws.Accepts azure_bucket_info_translator b "Key" ↔ (b.storage_account ≢ ""))
    × ((b : GcsBucketInfo)
        → Laws.Accepts gcs_bucket_info_translator b "Key"
          ↔ ((b.bucket_name ≢ "") × (b.project_id ≢ "")))
bucket_info-Accepts_example = Laws.bucket_info-Accepts "Key"

credential-Accepts_example :
    ((c : S3CredentialInfo)
      → Laws.Accepts s3_credential_translator c "Key" ↔ (
          key_authentication ≡ key_authentication
          → (c.access_key_id ≢ "") × (c.access_secret_key ≢ "")))
    × ((c : AzureCredentialInfo)
        → Laws.Accepts azure_credential_translator c "Key"
          ↔ (key_authentication ≡ key_authentication → c.access_token ≢ ""))
    × ((c : GcsCredentialInfo)
        → Laws.Accepts gcs_credential_translator c "Key" ↔ (
            (key_authentication ≡ key_authentication → (c.access_id ≢ "") × (c.access_secret ≢ ""))
            × (key_authentication ≡ service_account_authentication
                → (c.private_key_name ≢ "") × (c.service_account ≢ ""))))
credential-Accepts_example = Laws.credential-Accepts key_authentication

abbrev translated : List String × Dict String
translated = ("S3" ∷ [], s3_bucket_info_translator.rpc_to_api (some info))

bucket_info_to_api_validated_example :
    (config.expected_protocol ≡ "S3"
      → (bucket_info_to_api (some response) (some config) ≡ ok translated) ↔ (
          (response.azure ≡ none)
          × (response.gcs ≡ none)
          × HasOnly s3_bucket_info_translator config response.s3
              (λ all. ("S3" ∷ [], all))
              translated))
    × (config.expected_protocol ≡ "Azure"
        → (bucket_info_to_api (some response) (some config) ≡ ok translated) ↔ (
            (response.s3 ≡ none)
            × (response.gcs ≡ none)
            × HasOnly azure_bucket_info_translator config response.azure
                (λ all. ("Azure" ∷ [], all))
                translated))
    × (config.expected_protocol ≡ "GCS"
        → (bucket_info_to_api (some response) (some config) ≡ ok translated) ↔ (
            (response.s3 ≡ none)
            × (response.azure ≡ none)
            × HasOnly gcs_bucket_info_translator config response.gcs
                (λ all. ("GCS" ∷ [], all))
                translated))
bucket_info_to_api_validated_example = bucket_info_to_api_validated response config translated

abbrev secret : Dict String
secret = s3_credential_translator.rpc_to_api credentials.s3

credentials_to_api_validated_example :
    (config.expected_protocol ≡ "S3"
      → (credentials_to_api (some credentials) config ≡ ok secret) ↔ (
          (credentials.azure ≡ none)
          × (credentials.gcs ≡ none)
          × HasOnly s3_credential_translator config credentials.s3 (λ all. all) secret))
    × (config.expected_protocol ≡ "Azure"
        → (credentials_to_api (some credentials) config ≡ ok secret) ↔ (
            (credentials.s3 ≡ none)
            × (credentials.gcs ≡ none)
            × HasOnly azure_credential_translator config credentials.azure (λ all. all) secret))
    × (config.expected_protocol ≡ "GCS"
        → (credentials_to_api (some credentials) config ≡ ok secret) ↔ (
            (credentials.s3 ≡ none)
            × (credentials.azure ≡ none)
            × HasOnly gcs_credential_translator config credentials.gcs (λ all. all) secret))
credentials_to_api_validated_example = credentials_to_api_validated credentials config secret
