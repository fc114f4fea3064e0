-- ===== src/Protocol/Azure.antt =====
-- internal/protocol/azure.go.
use container_object_storage.Prelude.{
  String, Option, none, some, [], ◌∷◌, ◌==◌, not, Dict, dict_get, dict_get_or, if◌then◌else◌,
}
use container_object_storage.Errors.{Error, errorf, error_of, error_if}
use container_object_storage.Api.Access.{key_authentication}
use container_object_storage.Rpc.{AzureBucketInfo, AzureCredentialInfo}
use container_object_storage.Protocol.Vars.{RpcApiTranslator, object_protocol_azure}

abbrev pub azure_storage_account : String
azure_storage_account = "COSI_AZURE_STORAGE_ACCOUNT"

abbrev pub azure_access_token : String
azure_access_token = "COSI_AZURE_ACCESS_TOKEN"

abbrev pub azure_expiry_timestamp : String
azure_expiry_timestamp = "COSI_AZURE_EXPIRY_TIMESTAMP"

unfoldable pub azure_bucket_info_to_api : Option AzureBucketInfo → Dict String
azure_bucket_info_to_api none = []
azure_bucket_info_to_api (some b) = (azure_storage_account, b.storage_account) ∷ []

unfoldable pub azure_bucket_info_to_rpc : Dict String → Option AzureBucketInfo
unfolding dict_get
azure_bucket_info_to_rpc [] = none
azure_bucket_info_to_rpc (v ∷ vs) =
    some (record { storage_account = dict_get_or (v ∷ vs) azure_storage_account })

unfoldable pub validate_azure_bucket_info : Dict String → String → Option Error
unfolding dict_get error_of
validate_azure_bucket_info vars auth = error_of "azure bucket info is invalid: %w" (
    error_if (dict_get_or vars azure_storage_account == "")
      (errorf "azure storage account cannot be unset" []))

unfoldable pub azure_credential_to_api : Option AzureCredentialInfo → Dict String
azure_credential_to_api none = []
azure_credential_to_api (some c) =
    (azure_access_token, c.access_token) ∷ (azure_expiry_timestamp, c.expiry_timestamp) ∷ []

unfoldable pub azure_credential_to_rpc : Dict String → Option AzureCredentialInfo
unfolding dict_get
azure_credential_to_rpc [] = none
azure_credential_to_rpc (v ∷ vs) = some (record {
  access_token = dict_get_or (v ∷ vs) azure_access_token;
  expiry_timestamp = dict_get_or (v ∷ vs) azure_expiry_timestamp;
})

unfoldable pub validate_azure_credential : Dict String → String → Option Error
unfolding dict_get error_of
validate_azure_credential vars auth =
    if not (auth == key_authentication)
    then none
    else error_of "azure credential info is invalid: %w" (
        error_if (dict_get_or vars azure_access_token == "")
          (errorf "azure access token cannot be unset" []))

-- AzureBucketInfoTranslator
unfoldable pub azure_bucket_info_translator : RpcApiTranslator AzureBucketInfo
unfolding azure_bucket_info_to_api azure_bucket_info_to_rpc validate_azure_bucket_info
azure_bucket_info_translator = record {
  api_protocol = object_protocol_azure;
  rpc_to_api = azure_bucket_info_to_api;
  api_to_rpc = azure_bucket_info_to_rpc;
  validate = validate_azure_bucket_info;
}

-- AzureCredentialTranslator
unfoldable pub azure_credential_translator : RpcApiTranslator AzureCredentialInfo
unfolding azure_credential_to_api azure_credential_to_rpc validate_azure_credential
azure_credential_translator = record {
  api_protocol = object_protocol_azure;
  rpc_to_api = azure_credential_to_api;
  api_to_rpc = azure_credential_to_rpc;
  validate = validate_azure_credential;
}
