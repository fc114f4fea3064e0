-- ===== src/SidecarAccess/Granted.antt =====
-- sidecar/pkg/reconciler/bucketaccess.go: the driver's answer to a grant.
use container_object_storage.Prelude.{
  ℕ, suc, String, Option, some, List, [], ◌∷◌, ◌++◌, ◌==◌, Dict, dict_has, dict_set, if◌then◌else◌,
}
use container_object_storage.Errors.{
  Error, errorf, wrapf, text, number, Result, ok, err, error_if, error_of, errors_join,
}
use container_object_storage.Rpc.{DriverGrantBucketAccessResponse, GrantedBucketInfo}
use container_object_storage.Translator.{ValidationConfig, credentials_to_api, bucket_info_to_api}
use container_object_storage.SidecarAccess.Config.{InternalGrantAccessConfig}

pub record GrantedAccessApiDetails : Type 0 where
  pub account_id : String
  pub shared_credential_info : Dict String
  pub bucket_info_by_bucket_id : Dict (Dict String)

-- `credInfo` and the errors of the parts before the loop.
unfoldable pub collect_credentials : String → Result (Dict String) → Dict String × List Error
collect_credentials id (ok info) = (info, error_if (id == "") (errorf "missing account ID" []))
collect_credentials id (err e) = (
  [],
  error_if (id == "") (errorf "missing account ID" [])
      ++ wrapf "shared credentials are invalid: %w" [] e ∷ [],
)

-- `bucketInfoByBucketId` and `errs`
abbrev pub Infos : Type 0
Infos = Dict (Dict String) × List Error

unfoldable pub collect_info : ℕ → String → Result (List String × Dict String) → Infos → Infos
collect_info i id (ok (protos, info)) (infos, errs) = (dict_set infos id info, errs)
collect_info i id (err e) (infos, errs) =
    (infos, errs ++ wrapf "invalid bucket info at index %d: %w" (number i ∷ []) e ∷ [])

unfoldable pub collect_granted : ValidationConfig → ℕ → GrantedBucketInfo → Infos → Infos
unfolding collect_info
collect_granted v i b (infos, errs) =
    if b.bucket_id == ""
    then (infos, errs ++ errorf "missing bucket ID at index %d" (number i ∷ []) ∷ [])
    else collect_info i b.bucket_id (bucket_info_to_api b.bucket_info (some v)) (infos, errs)

unfoldable pub collect_all_granted : ValidationConfig → ℕ → List GrantedBucketInfo → Infos → Infos
unfolding collect_granted
collect_all_granted v i [] acc = acc
collect_all_granted v i (b ∷ bs) acc = collect_all_granted v (suc i) bs (collect_granted v i b acc)

unfoldable pub granted : String → Dict String → Infos → Result GrantedAccessApiDetails
granted id credentials (infos, []) = ok (record {
  account_id = id;
  shared_credential_info = credentials;
  bucket_info_by_bucket_id = infos;
})
granted id credentials (infos, e ∷ es) =
    err (wrapf "granted access response is invalid: %w" [] (errors_join (e ∷ es)))

unfoldable pub translate_driver_grant_bucket_access_response_to_api :
    DriverGrantBucketAccessResponse → ValidationConfig → Result GrantedAccessApiDetails
unfolding collect_credentials collect_all_granted granted
translate_driver_grant_bucket_access_response_to_api resp v =
    let (credentials, errs) =
      collect_credentials resp.account_id (credentials_to_api resp.credentials v) in
    granted resp.account_id credentials (collect_all_granted v 0 resp.buckets ([], errs))

-- The loop over the keys of one map, with the message for a key that the other has not.
unfoldable pub missing_keys {ℓ κ} :
    {A : Type ℓ} {B : Type κ} → String → Dict A → Dict B → List Error
missing_keys format [] others = []
missing_keys format ((id, v) ∷ m) others =
    (if dict_has others id then [] else errorf format (text id ∷ []) ∷ [])
    ++ missing_keys format m others

unfoldable pub validate_granted_access :
    InternalGrantAccessConfig → GrantedAccessApiDetails → Option Error
unfolding missing_keys
validate_granted_access cfg details = error_of "granted access is invalid: %w" (
    missing_keys "granted access missing for bucket ID %q" cfg.access_configs_by_bucket_id
      details.bucket_info_by_bucket_id
    ++ missing_keys "granted access to unknown bucket with ID %q" details.bucket_info_by_bucket_id
        cfg.access_configs_by_bucket_id)
