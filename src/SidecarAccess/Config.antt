-- ===== src/SidecarAccess/Config.antt =====
-- sidecar/pkg/reconciler/bucketaccess.go: the internal configurations of the grant and revoke calls.
use container_object_storage.Prelude.{
  ℕ, String, Option, none, some, List, [], ◌∷◌, ◌++◌, ◌==◌, Dict, dict_get, dict_set, nat_eq,
  if◌then◌else◌,
}
use Prim.Native.String.{◌++◌ as append}
use container_object_storage.Errors.{
  Error, errorf, wrapf, text, non_retryable_error, Result, ok, err, errors_join,
}
use container_object_storage.Api.Access.{BucketAccess, BucketClaimAccess, AccessedBucket}
use container_object_storage.Api.Secret.{Secret}
use container_object_storage.Rpc
use container_object_storage.Rpc.{GrantAccessedBucket}
use container_object_storage.Protocol.{api_to_rpc}
use container_object_storage.Translator.{authentication_type_to_rpc, access_mode_to_rpc}

pub record InternalAccessConfig : Type 0 where
  pub protocol : ℕ
  pub authentication_type : ℕ
  pub service_account_name : String
  pub parameters : Dict String

pub record BucketGrantAccessConfig : Type 0 where
  pub access_mode : ℕ
  pub access_secret_name : String

-- `map[string]*corev1.Secret`
abbrev pub Secrets : Type 0
Secrets = Dict Secret

pub record InternalGrantAccessConfig : Type 0 where
  pub shared : InternalAccessConfig
  pub account_name : String
  pub access_configs_by_bucket_id : Dict BucketGrantAccessConfig
  pub secrets_by_name : Secrets

pub record InternalRevokeAccessConfig : Type 0 where
  pub shared : InternalAccessConfig
  pub account_id : String
  pub revoke_bucket_list : List String

-- `if err != nil { return nil, f(err) }`, and what the function does with the value.
unfoldable pub with_ok {ℓ κ} :
    {A : Type ℓ} {B : Type κ} → (Error → Error) → (A → Result B) → Result A → Result B
with_ok f k (ok a) = k a
with_ok f k (err e) = err (f e)

unfoldable pub new_internal_access_config : BucketAccess → Result InternalAccessConfig
unfolding with_ok
new_internal_access_config access =
    with_ok non_retryable_error
      (λ proto.
        with_ok non_retryable_error
          (λ auth_type. ok (record {
            protocol = proto;
            authentication_type = auth_type;
            service_account_name =
                if nat_eq auth_type Rpc.service_account
                then access.spec.service_account_name
                else "";
            parameters = access.status.parameters;
          }))
          (authentication_type_to_rpc access.status.authentication_type))
      (api_to_rpc access.spec.protocol)

-- The loop that fills `bucketIdsByClaimName`.
unfoldable pub bucket_ids_by_claim_name : List AccessedBucket → Dict String → Dict String
bucket_ids_by_claim_name [] ids = ids
bucket_ids_by_claim_name (ab ∷ abs) ids =
    bucket_ids_by_claim_name abs (dict_set ids ab.bucket_claim_name ab.bucket_id)

-- `accessConfigsByBucketId` and `errs`
abbrev pub Configs : Type 0
Configs = Dict BucketGrantAccessConfig × List Error

unfoldable pub set_config : BucketClaimAccess → String → Result ℕ → Configs → Configs
set_config ref id (err e) (configs, errs) = (
  configs,
  errs
      ++ errorf "failed to parse access mode for BucketClaim %q" (text ref.bucket_claim_name ∷ [])
        ∷ [],
)
set_config ref id (ok mode) (configs, errs) = (
  dict_set configs id (record { access_mode = mode; access_secret_name = ref.access_secret_name }),
  errs,
)

unfoldable pub add_config : BucketClaimAccess → Option String → Configs → Configs
unfolding set_config
add_config ref none (configs, errs) = (
  configs,
  errs
      ++ errorf "could not map BucketClaim %q to any accessed Bucket"
          (text ref.bucket_claim_name ∷ [])
        ∷ [],
)
add_config ref (some id) acc = set_config ref id (access_mode_to_rpc ref.access_mode) acc

unfoldable pub add_configs : Dict String → List BucketClaimAccess → Configs → Configs
unfolding add_config
add_configs ids [] acc = acc
add_configs ids (ref ∷ refs) acc =
    add_configs ids refs (add_config ref (dict_get ids ref.bucket_claim_name) acc)

unfoldable pub generated : Configs → Result (Dict BucketGrantAccessConfig)
generated (configs, []) = ok configs
generated (configs, e ∷ es) = err (
    non_retryable_error
      (wrapf "failed to generate internal access configuration: %w" [] (errors_join (e ∷ es))))

unfoldable pub generate_internal_accessed_bucket_configs :
    BucketAccess → Result (Dict BucketGrantAccessConfig)
unfolding add_configs generated
generate_internal_accessed_bucket_configs access = generated (
    add_configs (bucket_ids_by_claim_name access.status.accessed_buckets [])
      access.spec.bucket_claims ([], []))

unfoldable pub new_internal_grant_access_config :
    BucketAccess → Secrets → Result InternalGrantAccessConfig
unfolding with_ok
new_internal_grant_access_config access secrets =
    with_ok (λ e. e)
      (λ shared.
        with_ok (λ e. e)
          (λ configs. ok (record {
            shared = shared;
            account_name = append "ba-" access.metadata.uid;
            access_configs_by_bucket_id = configs;
            secrets_by_name = secrets;
          }))
          (generate_internal_accessed_bucket_configs access))
      (new_internal_access_config access)

-- The list is filled in the order in which the map is visited.
unfoldable pub rpc_grant_buckets_list : Dict BucketGrantAccessConfig → List GrantAccessedBucket
rpc_grant_buckets_list [] = []
rpc_grant_buckets_list ((id, cfg) ∷ configs) =
    record { bucket_id = id; access_mode = cfg.access_mode } ∷ rpc_grant_buckets_list configs

unfoldable pub revoke_list : List AccessedBucket → Result (List String)
unfolding with_ok
revoke_list [] = ok []
revoke_list (ab ∷ abs) =
    let rest = revoke_list abs in
    if ab.bucket_id == ""
    then err (
        non_retryable_error (
          errorf "unrecoverable degradation: accessedBucket for BucketClaim %q is missing bucket ID"
            (text ab.bucket_claim_name ∷ [])))
    else with_ok (λ e. e) (λ ids. ok (ab.bucket_id ∷ ids)) rest

unfoldable pub new_internal_revoke_access_config : BucketAccess → Result InternalRevokeAccessConfig
unfolding with_ok
new_internal_revoke_access_config access =
    with_ok (λ e. e)
      (λ shared.
        if access.status.account_id == ""
        then err (
            non_retryable_error
              (errorf "cannot revoke access for BucketAccess with no account ID" []))
        else with_ok (λ e. e)
            (λ ids. ok (record {
              shared = shared;
              account_id = access.status.account_id;
              revoke_bucket_list = ids;
            }))
            (revoke_list access.status.accessed_buckets))
      (new_internal_access_config access)
