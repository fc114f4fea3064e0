-- ===== src/Protocol/S3.antt =====
-- internal/protocol/s3.go.
use container_object_storage.Prelude.{
  ℕ, String, Option, none, some, List, [], ◌∷◌, ◌++◌, ◌==◌, not, Dict, dict_get, dict_get_or,
  contains, nat_eq, if◌then◌else◌,
}
use container_object_storage.Errors.{Error, errorf, text, texts, error_of, error_if}
use container_object_storage.Api.Access.{key_authentication}
use container_object_storage.Rpc.{
  S3BucketInfo, S3CredentialInfo, unknown_style, path_style, virtual_style,
}
use container_object_storage.Protocol.Vars.{RpcApiTranslator, object_protocol_s3}

abbrev pub s3_bucket_id : String
s3_bucket_id = "COSI_S3_BUCKET_ID"

abbrev pub s3_endpoint : String
s3_endpoint = "COSI_S3_ENDPOINT"

abbrev pub s3_region : String
s3_region = "COSI_S3_REGION"

abbrev pub s3_addressing_style : String
s3_addressing_style = "COSI_S3_ADDRESSING_STYLE"

abbrev pub s3_access_key_id : String
s3_access_key_id = "COSI_S3_ACCESS_KEY_ID"

abbrev pub s3_access_secret_key : String
s3_access_secret_key = "COSI_S3_ACCESS_SECRET_KEY"

abbrev pub valid_s3_addressing_styles : List String
valid_s3_addressing_styles = "path" ∷ "virtual" ∷ []

-- The value that is set for an addressing style; the empty text where none is set.
unfoldable pub style_to_api : Option ℕ → String
style_to_api none = ""
style_to_api (some s) =
    if nat_eq s path_style then "path" else if nat_eq s virtual_style then "virtual" else ""

unfoldable pub style_to_rpc : String → ℕ
style_to_rpc s =
    if s == "path" then path_style else if s == "virtual" then virtual_style else unknown_style

unfoldable pub s3_bucket_info_to_api : Option S3BucketInfo → Dict String
s3_bucket_info_to_api none = []
s3_bucket_info_to_api (some b) =
    (s3_bucket_id, b.bucket_id)
    ∷ (s3_endpoint, b.endpoint)
    ∷ (s3_region, b.region)
    ∷ (s3_addressing_style, style_to_api b.addressing_style)
    ∷ []

unfoldable pub s3_bucket_info_to_rpc : Dict String → Option S3BucketInfo
unfolding dict_get
s3_bucket_info_to_rpc [] = none
s3_bucket_info_to_rpc (v ∷ vs) =
    let vars = v ∷ vs in
    some (record {
      bucket_id = dict_get_or vars s3_bucket_id;
      endpoint = dict_get_or vars s3_endpoint;
      region = dict_get_or vars s3_region;
      addressing_style = some (style_to_rpc (dict_get_or vars s3_addressing_style));
    })

unfoldable pub validate_s3_bucket_info : Dict String → String → Option Error
unfolding dict_get error_of
validate_s3_bucket_info vars auth = error_of "S3 bucket info is invalid: %w" (
    error_if (dict_get_or vars s3_bucket_id == "") (errorf "S3 bucket ID cannot be unset" [])
    ++ (error_if (dict_get_or vars s3_endpoint == "") (errorf "S3 endpoint cannot be unset" [])
        ++ (error_if (dict_get_or vars s3_region == "") (errorf "S3 region cannot be unset" [])
            ++ error_if
                (not (contains valid_s3_addressing_styles (dict_get_or vars s3_addressing_style)))
                (errorf "S3 addressing style %q must be one of %v" (
                  text (dict_get_or vars s3_addressing_style)
                  ∷ texts valid_s3_addressing_styles
                  ∷ [])))))

unfoldable pub s3_credential_to_api : Option S3CredentialInfo → Dict String
s3_credential_to_api none = []
s3_credential_to_api (some c) =
    (s3_access_key_id, c.access_key_id) ∷ (s3_access_secret_key, c.access_secret_key) ∷ []

unfoldable pub s3_credential_to_rpc : Dict String → Option S3CredentialInfo
unfolding dict_get
s3_credential_to_rpc [] = none
s3_credential_to_rpc (v ∷ vs) = some (record {
  access_key_id = dict_get_or (v ∷ vs) s3_access_key_id;
  access_secret_key = dict_get_or (v ∷ vs) s3_access_secret_key;
})

unfoldable pub validate_s3_credential : Dict String → String → Option Error
unfolding dict_get error_of
validate_s3_credential vars auth =
    if not (auth == key_authentication)
    then none
    else error_of "S3 credential info is invalid: %w" (
        error_if (dict_get_or vars s3_access_key_id == "")
          (errorf "S3 access key ID cannot be unset" [])
        ++ error_if (dict_get_or vars s3_access_secret_key == "")
            (errorf "S3 access secret key cannot be unset" []))

-- S3BucketInfoTranslator
unfoldable pub s3_bucket_info_translator : RpcApiTranslator S3BucketInfo
unfolding s3_bucket_info_to_api s3_bucket_info_to_rpc validate_s3_bucket_info
s3_bucket_info_translator = record {
  api_protocol = object_protocol_s3;
  rpc_to_api = s3_bucket_info_to_api;
  api_to_rpc = s3_bucket_info_to_rpc;
  validate = validate_s3_bucket_info;
}

-- S3CredentialTranslator
unfoldable pub s3_credential_translator : RpcApiTranslator S3CredentialInfo
unfolding s3_credential_to_api s3_credential_to_rpc validate_s3_credential
s3_credential_translator = record {
  api_protocol = object_protocol_s3;
  rpc_to_api = s3_credential_to_api;
  api_to_rpc = s3_credential_to_rpc;
  validate = validate_s3_credential;
}
