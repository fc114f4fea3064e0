-- ===== src/Translator.antt =====
-- sidecar/internal/translator/translator.go: the translation of the driver's responses, for all
-- protocols, with the validation that a BucketAccess asks for.
pub mod Parts
pub mod Laws
use container_object_storage.Prelude.{
  ℕ, String, Bool, true, false, not, ◌&&◌, Option, none, some, List, [], ◌∷◌, ◌++◌, ◌==◌, Dict,
  dict_merge, is_some, if◌then◌else◌,
}
use container_object_storage.Errors.{
  Arg, Error, errorf, wrapf, text, Result, ok, err, errors_join, error_of,
}
use container_object_storage.Api.Access.{
  key_authentication, service_account_authentication, read_only_mode, read_write_mode,
  write_only_mode,
}
use container_object_storage.Rpc
use container_object_storage.Rpc.{ObjectProtocolAndBucketInfo, CredentialInfo}
use container_object_storage.Protocol.{
  RpcApiTranslator, object_protocol_s3, object_protocol_azure, object_protocol_gcs,
}
use container_object_storage.Protocol.S3.{s3_bucket_info_translator, s3_credential_translator}
use container_object_storage.Protocol.Azure.{
  azure_bucket_info_translator, azure_credential_translator,
}
use container_object_storage.Protocol.Gcs.{gcs_bucket_info_translator, gcs_credential_translator}

pub record ValidationConfig : Type 0 where
  pub expected_protocol : String
  pub authentication_type : String

-- `if err := translator.Validate(out, …); err != nil { return nil, err }; return out, nil`
validated : Dict String → Option Error → Result (Dict String)
validated out none = ok out
validated out (some e) = err e

-- The translators are structs and the RPC types pointers, so the tests of `reflect` for a nil
-- translator and for an RPC type that is no pointer never hold; they are left out.
module _ {R : Type 0} (t : RpcApiTranslator R) where
  unfoldable pub translate : Option R → Option ValidationConfig → Result (Dict String)
  unfolding validated
  translate rpc_info none = ok (t.rpc_to_api rpc_info)
  translate none (some v) =
      if not (v.expected_protocol == t.api_protocol)
      then ok []
      else err (errorf "missing response for expected %q protocol" (text t.api_protocol ∷ []))
  translate (some i) (some v) =
      if not (v.expected_protocol == t.api_protocol)
      then err (
          errorf "received %q protocol response when only %q protocol is expected"
            (text t.api_protocol ∷ text v.expected_protocol ∷ []))
      else validated (t.rpc_to_api (some i))
          (t.validate (t.rpc_to_api (some i)) v.authentication_type)

-- The `errs` and the map that the translations add to.
abbrev pub Collected : Type 0
Collected = List Error × Dict String

-- `if err != nil { errs = append(errs, …) } else { MergeApiInfoIntoStringMap(info, all) }`
pub collect : String → List Arg → Result (Dict String) → Collected → Collected
collect format args (ok info) (errs, all) = (errs, dict_merge info all)
collect format args (err e) (errs, all) = (errs ++ wrapf format args e ∷ [], all)

-- `if x != nil { returnedProtos = append(returnedProtos, p) }`
returned {ℓ} : {A : Type ℓ} → Option A → String → List String
returned none p = []
returned (some a) p = p ∷ []

pub finish {ℓ} : {A : Type ℓ} → String → A → List Error → Result A
finish format a [] = ok a
finish format a (e ∷ es) = err (wrapf format [] (errors_join (e ∷ es)))

collected_bucket_info : ObjectProtocolAndBucketInfo → Option ValidationConfig → Collected
unfolding collect
collected_bucket_info bi v =
    let format : String = "errors translating %s bucket info: %w" in
    collect format (text object_protocol_gcs ∷ []) (translate gcs_bucket_info_translator bi.gcs v) (
      collect format (text object_protocol_azure ∷ [])
        (translate azure_bucket_info_translator bi.azure v)
        (collect format (text object_protocol_s3 ∷ []) (translate s3_bucket_info_translator bi.s3 v)
          ([], [])))

unfoldable pub returned_protocols : ObjectProtocolAndBucketInfo → List String
unfolding returned
returned_protocols bi =
    returned bi.s3 object_protocol_s3
    ++ (returned bi.azure object_protocol_azure ++ returned bi.gcs object_protocol_gcs)

unfoldable pub bucket_info_to_api :
    Option ObjectProtocolAndBucketInfo
    → Option ValidationConfig
    → Result (List String × Dict String)
unfolding collected_bucket_info returned_protocols finish
bucket_info_to_api none v = err (errorf "bucket info response is nil" [])
bucket_info_to_api (some bi) v =
    let (errs, all) = collected_bucket_info bi v in
    finish "errors translating bucket info: %w" (returned_protocols bi, all) errs

collected_credentials : CredentialInfo → ValidationConfig → Collected
unfolding collect
collected_credentials ci v =
    collect "errors translating GCS bucket credentials: %w" []
      (translate gcs_credential_translator ci.gcs (some v))
      (collect "errors translating Azure bucket credentials: %w" []
        (translate azure_credential_translator ci.azure (some v))
        (collect "errors translating S3 bucket credentials: %w" []
          (translate s3_credential_translator ci.s3 (some v)) ([], [])))

unfoldable pub credentials_to_api : Option CredentialInfo → ValidationConfig → Result (Dict String)
unfolding collected_credentials finish
credentials_to_api none v = err (errorf "credential info is nil" [])
credentials_to_api (some ci) v =
    let (errs, all) = collected_credentials ci v in
    finish "errors translating access credentials: %w" all errs

unfoldable pub authentication_type_to_rpc : String → Result ℕ
authentication_type_to_rpc a =
    if a == key_authentication
    then ok Rpc.key
    else if a == service_account_authentication
    then ok Rpc.service_account
    else err (errorf "unknown authentication type %q" (text a ∷ []))

unfoldable pub access_mode_to_rpc : String → Result ℕ
access_mode_to_rpc m =
    if m == read_only_mode
    then ok Rpc.read_only
    else if m == read_write_mode
    then ok Rpc.read_write
    else if m == write_only_mode
    then ok Rpc.write_only
    else err (errorf "unknown access mode %q" (text m ∷ []))
