-- ===== src/Protocol/Gcs.antt =====
-- internal/protocol/gcs.go.
use container_object_storage.Prelude.{
  String, Option, none, some, List, [], ◌∷◌, ◌++◌, ◌==◌, Dict, dict_get, dict_get_or, if◌then◌else◌,
}
use container_object_storage.Errors.{Error, errorf, error_of, error_if}
use container_object_storage.Api.Access.{key_authentication, service_account_authentication}
use container_object_storage.Rpc.{GcsBucketInfo, GcsCredentialInfo}
use container_object_storage.Protocol.Vars.{RpcApiTranslator, object_protocol_gcs}

abbrev pub gcs_project_id : String
gcs_project_id = "COSI_GCS_PROJECT_ID"

abbrev pub gcs_bucket_name : String
gcs_bucket_name = "COSI_GCS_BUCKET_NAME"

abbrev pub gcs_access_id : String
gcs_access_id = "COSI_GCS_ACCESS_ID"

abbrev pub gcs_access_secret : String
gcs_access_secret = "COSI_GCS_ACCESS_SECRET"

abbrev pub gcs_private_key_name : String
gcs_private_key_name = "COSI_GCS_PRIVATE_KEY_NAME"

abbrev pub gcs_service_account : String
gcs_service_account = "COSI_GCS_SERVICE_ACCOUNT"

unfoldable pub gcs_bucket_info_to_api : Option GcsBucketInfo → Dict String
gcs_bucket_info_to_api none = []
gcs_bucket_info_to_api (some b) =
    (gcs_bucket_name, b.bucket_name) ∷ (gcs_project_id, b.project_id) ∷ []

unfoldable pub gcs_bucket_info_to_rpc : Dict String → Option GcsBucketInfo
unfolding dict_get
gcs_bucket_info_to_rpc [] = none
gcs_bucket_info_to_rpc (v ∷ vs) = some (record {
  project_id = dict_get_or (v ∷ vs) gcs_project_id;
  bucket_name = dict_get_or (v ∷ vs) gcs_bucket_name;
})

unfoldable pub validate_gcs_bucket_info : Dict String → String → Option Error
unfolding dict_get error_of
validate_gcs_bucket_info vars auth = error_of "GCS bucket info is invalid: %w" (
    error_if (dict_get_or vars gcs_bucket_name == "") (errorf "GCS bucket name cannot be unset" [])
    ++ error_if (dict_get_or vars gcs_project_id == "")
        (errorf "GCS project ID cannot be unset" []))

unfoldable pub gcs_credential_to_api : Option GcsCredentialInfo → Dict String
gcs_credential_to_api none = []
gcs_credential_to_api (some c) =
    (gcs_access_id, c.access_id)
    ∷ (gcs_access_secret, c.access_secret)
    ∷ (gcs_private_key_name, c.private_key_name)
    ∷ (gcs_service_account, c.service_account)
    ∷ []

unfoldable pub gcs_credential_to_rpc : Dict String → Option GcsCredentialInfo
unfolding dict_get
gcs_credential_to_rpc [] = none
gcs_credential_to_rpc (v ∷ vs) = some (record {
  access_id = dict_get_or (v ∷ vs) gcs_access_id;
  access_secret = dict_get_or (v ∷ vs) gcs_access_secret;
  private_key_name = dict_get_or (v ∷ vs) gcs_private_key_name;
  service_account = dict_get_or (v ∷ vs) gcs_service_account;
})

-- The errors that the cases of the switch on the authentication type collect.
gcs_credential_errors : Dict String → String → List Error
unfolding dict_get
gcs_credential_errors vars auth =
    if auth == key_authentication
    then (error_if (dict_get_or vars gcs_access_id == "")
          (errorf "GCS access ID cannot be unset" [])
        ++ error_if (dict_get_or vars gcs_access_secret == "")
            (errorf "GCS access secret cannot be unset" []))
    else if auth == service_account_authentication
    then (error_if (dict_get_or vars gcs_private_key_name == "")
          (errorf "GCS private key name cannot be unset" [])
        ++ error_if (dict_get_or vars gcs_service_account == "")
            (errorf "GCS service account cannot be unset" []))
    else []

unfoldable pub validate_gcs_credential : Dict String → String → Option Error
unfolding gcs_credential_errors error_of
validate_gcs_credential vars auth =
    error_of "GCS credential info is invalid: %w" (gcs_credential_errors vars auth)

-- GcsBucketInfoTranslator
unfoldable pub gcs_bucket_info_translator : RpcApiTranslator GcsBucketInfo
unfolding gcs_bucket_info_to_api gcs_bucket_info_to_rpc validate_gcs_bucket_info
gcs_bucket_info_translator = record {
  api_protocol = object_protocol_gcs;
  rpc_to_api = gcs_bucket_info_to_api;
  api_to_rpc = gcs_bucket_info_to_rpc;
  validate = validate_gcs_bucket_info;
}

-- GcsCredentialTranslator
unfoldable pub gcs_credential_translator : RpcApiTranslator GcsCredentialInfo
unfolding gcs_credential_to_api gcs_credential_to_rpc validate_gcs_credential
gcs_credential_translator = record {
  api_protocol = object_protocol_gcs;
  rpc_to_api = gcs_credential_to_api;
  api_to_rpc = gcs_credential_to_rpc;
  validate = validate_gcs_credential;
}
