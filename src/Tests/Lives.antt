-- ===== src/Tests/Lives.antt =====
-- A BucketAccess that was handed over, over its life.
use container_object_storage.Prelude.{
  ◌≡◌, refl, true, some, [], inl, inr, ◌∷◌, dict_get, dict_set, dict_merge, contains,
}
use container_object_storage.Errors.{ok, error_of}
use container_object_storage.Api.Access.{BucketAccess}
use container_object_storage.Ownership.{managed_by_sidecar, sidecar_requirements_present}
use container_object_storage.World.{Env}
use container_object_storage.World.Action.{◌>>=◌, range}
use container_object_storage.World.Accesses.{update_access, update_access_status, protect_access}
use container_object_storage.World.Accesses.Protection.{KeepsAccesses, IsSameAccess}
use container_object_storage.Translator.{
  translate, bucket_info_to_api, credentials_to_api, authentication_type_to_rpc, access_mode_to_rpc,
}
use container_object_storage.Protocol.{api_to_rpc}
use container_object_storage.Protocol.S3.{
  s3_bucket_info_translator, s3_credential_translator, style_to_api,
}
use container_object_storage.Protocol.Azure.{
  azure_bucket_info_translator, azure_credential_translator,
}
use container_object_storage.Protocol.Gcs.{gcs_bucket_info_translator, gcs_credential_translator}
use container_object_storage.SidecarAccess.Config.{
  with_ok, new_internal_access_config, bucket_ids_by_claim_name, set_config, add_config,
  add_configs, generate_internal_accessed_bucket_configs, new_internal_grant_access_config,
  revoke_list, rpc_grant_buckets_list, new_internal_revoke_access_config,
}
use container_object_storage.SidecarAccess.Granted.{
  collect_credentials, collect_info, collect_granted, collect_all_granted, granted,
  translate_driver_grant_bucket_access_response_to_api, missing_keys, validate_granted_access,
}
use container_object_storage.SidecarAccess.Buckets.{
  validate_bucket_is_ready_for_access, collect_bucket_error, get_and_validate_bucket,
  get_and_validate_all_accessed_buckets,
}
use container_object_storage.SidecarAccess.Secrets.{
  collect_secret, set_access_secret_required_metadata, send_secret, create_new_owned_access_secret,
  reserve_read, reserve_secret, reserve_access_secrets, collect_updated, update_named_secret,
  update_configured_secret, update_secret_for, update_secrets_with_granted_info, delete_read,
  delete_secret_of, delete_owned_access_secrets,
}
use container_object_storage.SidecarAccess.{
  not_initialized, driver_grant_access, grant, provision_access, driver_revoke_access,
  reconcile_delete, reconcile_access, manage_access, manage_access_request,
}
use container_object_storage.World.Accesses.{access_reporter}
use container_object_storage.World.Report.{reconcile_found, report, clear_error}
use container_object_storage.Rpc.{DriverGrantBucketAccessRequest, DriverRevokeBucketAccessRequest}
use container_object_storage.World.{driver_grant_bucket_access, driver_revoke_bucket_access}
use container_object_storage.World.Accesses.Steady.{IsKept}
use container_object_storage.AccessController.Steadiness.{MeetsRequirements}
use container_object_storage.Lifecycle.{stored, manages, edits, here, next, handover_is_final}
use container_object_storage.Lifecycle.Revocation.{IsCalledFor, Undoes, grants_are_undone}
use container_object_storage.Sample.{sample_grant, sample_runtime}
use container_object_storage.Tests.Grants.{granting_env, driver, handed_over, revoked, same_access}

-- The BucketAccess after a grant, before it is deleted.
abbrev granted_access : BucketAccess
granted_access = record handed_over {
  status = record handed_over.status { account_id = "account-1"; ready_to_use = some true };
}

abbrev living_env : Env
living_env = record granting_env { on_get_bucket_access = λ h namespace name. ok granted_access }

abbrev revoking_env : Env
revoking_env = record granting_env { on_get_bucket_access = λ h namespace name. ok revoked }

living_keeps : KeepsAccesses living_env
living_keeps = record { on_object = λ h a b e. same_access e; on_status = λ h a b e. same_access e }

revoking_keeps : KeepsAccesses revoking_env
revoking_keeps = record {
  on_object = λ h a b e. same_access e;
  on_status = λ h a b e. same_access e;
}

is_handed_over : MeetsRequirements granted_access
unfolding sidecar_requirements_present dict_set
is_handed_over = refl

-- A run of the Sidecar, a user who deletes the BucketAccess, and a run of the Controller.
abbrev granted_again : BucketAccess
granted_again =
    stored granted_access (manage_access_request living_env driver "apps" "photos-access" []).1

abbrev deleted_then : BucketAccess
deleted_then = record granted_again {
  metadata = record granted_again.metadata { deletion_timestamp = some 9 };
}

same_object : IsSameAccess granted_again deleted_then
same_object = record { same_namespace = refl; same_name = refl; same_uid = refl; same_spec = refl }

handover_is_final_example : IsKept granted_access deleted_then × MeetsRequirements deleted_then
handover_is_final_example = handover_is_final is_handed_over (
    next (next here (manages living_env driver "apps" "photos-access" living_keeps refl))
      (edits same_object refl))

abbrev granting_request : DriverGrantBucketAccessRequest
granting_request = record {
  account_name = "ba-77";
  protocol = 1;
  authentication_type = 1;
  service_account_name = "";
  parameters = [];
  buckets = record { bucket_id = "backend-7"; access_mode = 1 } ∷ [];
}

abbrev revoking_request : DriverRevokeBucketAccessRequest
revoking_request = record {
  account_id = "account-1";
  protocol = 1;
  authentication_type = 1;
  service_account_name = "";
  parameters = [];
  buckets = "backend-7" ∷ [];
}

calls_grant :
    IsCalledFor granted_access (driver_grant_bucket_access granting_request (ok sample_grant))
unfolding reconcile_access provision_access grant driver_grant_access protect_access update_access
    update_access_status get_and_validate_all_accessed_buckets get_and_validate_bucket
    collect_bucket_error validate_bucket_is_ready_for_access reserve_access_secrets reserve_secret
    reserve_read create_new_owned_access_secret set_access_secret_required_metadata collect_secret
    new_internal_grant_access_config generate_internal_accessed_bucket_configs add_configs
    add_config set_config bucket_ids_by_claim_name new_internal_access_config with_ok
    translate_driver_grant_bucket_access_response_to_api collect_all_granted collect_granted
    collect_info collect_credentials granted validate_granted_access missing_keys
    update_secrets_with_granted_info update_secret_for update_configured_secret update_named_secret
    send_secret collect_updated not_initialized sidecar_requirements_present range ◌>>=◌ error_of
    sample_runtime contains dict_get dict_set dict_merge authentication_type_to_rpc
    access_mode_to_rpc translate bucket_info_to_api credentials_to_api api_to_rpc
    s3_bucket_info_translator azure_bucket_info_translator gcs_bucket_info_translator style_to_api
    s3_credential_translator azure_credential_translator gcs_credential_translator
    manage_access_request manage_access managed_by_sidecar reconcile_found report clear_error
    access_reporter rpc_grant_buckets_list
calls_grant = record {
  env = living_env;
  info = driver;
  namespace = "apps";
  name = "photos-access";
  keeps = living_keeps;
  is_read = refl;
  is_recorded = inr (inr (inl refl));
}

calls_revoke : IsCalledFor revoked (driver_revoke_bucket_access revoking_request (ok tt))
unfolding reconcile_access reconcile_delete update_access update_access_status driver_revoke_access
    delete_owned_access_secrets delete_secret_of delete_read new_internal_revoke_access_config
    revoke_list new_internal_access_config with_ok range ◌>>=◌ error_of sample_runtime dict_get
    dict_set authentication_type_to_rpc api_to_rpc manage_access_request manage_access
    managed_by_sidecar reconcile_found report clear_error access_reporter
calls_revoke = record {
  env = revoking_env;
  info = driver;
  namespace = "apps";
  name = "photos-access";
  keeps = revoking_keeps;
  is_read = refl;
  is_recorded = inr (inl refl);
}

grants_are_undone_example :
    (calls_revoke.info.name ≡ calls_grant.info.name) × Undoes revoking_request granting_request
grants_are_undone_example =
    grants_are_undone is_handed_over here
      (next here (
        edits
          (record { same_namespace = refl; same_name = refl; same_uid = refl; same_spec = refl })
          refl))
      granting_request (ok sample_grant) calls_grant revoking_request (ok tt) calls_revoke
