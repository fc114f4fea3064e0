-- ===== src/SidecarBucket/Provision.antt =====
-- sidecar/pkg/reconciler/bucket.go: the provisioning workflows and the validations.
pub mod Validation
use container_object_storage.Prelude.{
  ℕ, String, Bool, true, false, ◌||◌, Option, none, some, List, [], ◌∷◌, ◌++◌, ◌==◌, Dict, contains,
  if◌then◌else◌,
}
use container_object_storage.Errors.{
  Arg, Error, errorf, wrapf, non_retryable_error, errors_join, text, number, Result, ok, err,
}
use container_object_storage.Api.Bucket.{Bucket, BucketClaimReference}
use container_object_storage.Rpc.{
  BucketResponse, ObjectProtocolAndBucketInfo, DriverCreateBucketRequest,
  DriverGetExistingBucketRequest,
}
use container_object_storage.Protocol.{api_to_rpc}
use container_object_storage.Translator.{bucket_info_to_api}
use container_object_storage.Driver.{
  DriverInfo, supports_protocol, Code, not_found, rpc_error_is_retryable,
}
use container_object_storage.World.{Env, driver_create_bucket, driver_get_existing_bucket}
use container_object_storage.World.Action.{branch, Action, ◌>>=◌, fail, lift, call, on_error}

-- The loop over `apiList` with `errs` and `out`.
parse_protocol : Result ℕ → List Error → List ℕ → List Error × List ℕ
parse_protocol (ok p) errs out = (errs, out ++ p ∷ [])
parse_protocol (err e) errs out = (errs ++ e ∷ [], out)

parse_protocols : List String → List Error × List ℕ → List Error × List ℕ
unfolding parse_protocol
parse_protocols [] acc = acc
parse_protocols (a ∷ as') (errs, out) = parse_protocols as' (parse_protocol (api_to_rpc a) errs out)

parsed : List Error × List ℕ → Result (List ℕ)
parsed ([], out) = ok out
parsed (e ∷ es, out) = err (wrapf "failed to parse protocol list: %w" [] (errors_join (e ∷ es)))

unfoldable pub object_protocol_list_from_api_list : List String → Result (List ℕ)
unfolding parsed parse_protocols
object_protocol_list_from_api_list api_list = parsed (parse_protocols api_list ([], []))

-- `append` for each protocol that the driver does not support.
unsupported_by_driver : DriverInfo → List ℕ → List Arg
unsupported_by_driver driver [] = []
unsupported_by_driver driver (p ∷ ps) =
    (if supports_protocol driver p then [] else number p ∷ []) ++ unsupported_by_driver driver ps

unsupported_error : String → List Arg → List Arg → Option Error
unsupported_error format args [] = none
unsupported_error format args (p ∷ ps) = some (errorf format (args ++ p ∷ ps))

unfoldable pub validate_driver_supports_protocols : DriverInfo → List ℕ → Option Error
unfolding unsupported_error unsupported_by_driver
validate_driver_supports_protocols driver required =
    unsupported_error "driver %q does not support protocols: %v" (text driver.name ∷ [])
      (unsupported_by_driver driver required)

unsupported_by_bucket : List String → List String → List Arg
unsupported_by_bucket supported [] = []
unsupported_by_bucket supported (r ∷ rs) =
    (if contains supported r then [] else text r ∷ []) ++ unsupported_by_bucket supported rs

unfoldable pub validate_bucket_supports_protocols : List String → List String → Option Error
unfolding unsupported_error unsupported_by_bucket
validate_bucket_supports_protocols supported required =
    unsupported_error "required protocols are not supported: %v" []
      (unsupported_by_bucket supported required)

pub record ProvisionedBucketDetails : Type 0 where
  pub bucket_id : String
  pub supported_protos : List String
  pub all_proto_bucket_info : Dict String

pub record DynamicProvisionParams : Type 0 where
  pub bucket_name : String
  pub required_protos : List ℕ
  pub parameters : Dict String
  pub claim_ref : BucketClaimReference

pub record StaticProvisionParams : Type 0 where
  pub existing_bucket_id : String
  pub required_protos : List ℕ
  pub parameters : Dict String
  pub claim_ref : BucketClaimReference

details_of : String → Result (List String × Dict String) → Result ProvisionedBucketDetails
details_of id (err e) = err (non_retryable_error e)
details_of id (ok (protos, info)) =
    ok (record { bucket_id = id; supported_protos = protos; all_proto_bucket_info = info })

-- The end of both workflows: the checks of the driver's response. `word` is the first word of the
-- messages, "created" or "existing".
check_protocols :
    String → String → Option ObjectProtocolAndBucketInfo → Result ProvisionedBucketDetails
unfolding details_of
check_protocols missing id none = err (non_retryable_error (errorf missing []))
check_protocols missing id (some p) = details_of id (bucket_info_to_api (some p) none)

unfoldable pub check_response : String → String → BucketResponse → Result ProvisionedBucketDetails
unfolding check_protocols
check_response no_id no_protocols resp =
    if resp.bucket_id == ""
    then err (non_retryable_error (errorf no_id []))
    else check_protocols no_protocols resp.bucket_id resp.protocols

module _ (env : Env) where
  -- `if rpcErrorIsRetryable(status.Code(err)) { return nil, err }; return nil, NonRetryableError(err)`
  unfoldable pub rpc_error : Error → Error
  rpc_error e = if rpc_error_is_retryable (env.status_code e) then e else non_retryable_error e

  is_not_found_code : Code → Bool
  is_not_found_code not_found = true
  is_not_found_code _ = false

  unfoldable pub existing_bucket_error : Error → Error
  unfolding is_not_found_code rpc_error
  existing_bucket_error e =
      if is_not_found_code (env.status_code e)
      then wrapf "waiting for backend bucket to exist: %w" [] e
      else rpc_error e

  unfoldable pub dynamic_provision : DynamicProvisionParams → Action Bucket ProvisionedBucketDetails
  dynamic_provision dynamic =
      let cr = dynamic.claim_ref in
      let request : DriverCreateBucketRequest = record {
        name = dynamic.bucket_name;
        protocols = dynamic.required_protos;
        parameters = dynamic.parameters;
      } in
      branch (cr.name == "" || (cr.namespace == "" || cr.uid == ""))
        (fail (
          non_retryable_error (
            errorf "all bucketClaimRef fields must be set for dynamic provisioning: %#v"
              (text cr.name ∷ text cr.namespace ∷ text cr.uid ∷ []))))
        do
          resp ←
              on_error rpc_error
                (call (driver_create_bucket request) (λ h. env.on_driver_create_bucket h request))
          lift (
              check_response "created bucket ID missing" "created bucket protocol response missing"
                resp)

  unfoldable pub static_provision : StaticProvisionParams → Action Bucket ProvisionedBucketDetails
  static_provision static =
      let ref = static.claim_ref in
      let request : DriverGetExistingBucketRequest = record {
        existing_bucket_id = static.existing_bucket_id;
        protocols = static.required_protos;
        parameters = static.parameters;
      } in
      branch (ref.name == "" || ref.namespace == "")
        (fail (
          non_retryable_error (
            errorf "bucketClaimRef namespace and name must be set for static provisioning: %#v"
              (text ref.name ∷ text ref.namespace ∷ text ref.uid ∷ []))))
        do
          resp ← on_error existing_bucket_error (
              call (driver_get_existing_bucket request)
                (λ h. env.on_driver_get_existing_bucket h request))
          lift (
              check_response "existing bucket ID missing in response"
                "existing bucket protocol response missing" resp)
