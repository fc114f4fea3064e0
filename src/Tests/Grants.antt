-- ===== src/Tests/Grants.antt =====
-- The reconciler of BucketAccesses in the Sidecar.
use container_object_storage.Prelude.{
  ◌≡◌, refl, false, true, some, [], ◌∷◌, dict_get, dict_set, dict_merge, contains,
}
use container_object_storage.Errors.{
  ok, error_of, err, Error, errorf, wrapf, flags, non_retryable_error,
}
use container_object_storage.Api.Bucket.{Bucket}
use container_object_storage.Api.Access.{BucketAccess}
use container_object_storage.Driver.{DriverInfo}
use container_object_storage.Ownership.{managed_by_sidecar, sidecar_requirements_present}
use container_object_storage.World.{Env, get_bucket_access, update_bucket_access_status}
use container_object_storage.World.Report.Laws.{IsRecorded}
use container_object_storage.World.Accesses.Recording.{HasError}
use container_object_storage.SidecarAccess.Recording.{manage_access_request-IsRecorded}
use container_object_storage.World.Action.{start, ◌>>=◌, range}
use container_object_storage.World.Accesses.{update_access, update_access_status, protect_access}
use container_object_storage.World.Accesses.Protection.{KeepsAccesses, IsSameAccess}
use container_object_storage.Translator.{
  translate, bucket_info_to_api, credentials_to_api, authentication_type_to_rpc, access_mode_to_rpc,
}
use container_object_storage.Protocol.{api_to_rpc}
use container_object_storage.Protocol.S3.{
  s3_bucket_info_translator, s3_credential_translator, style_to_api,
}
use container_object_storage.Protocol.Azure.{
  azure_bucket_info_translator, azure_credential_translator,
}
use container_object_storage.Protocol.Gcs.{gcs_bucket_info_translator, gcs_credential_translator}
use container_object_storage.SidecarAccess.Config.{
  with_ok, new_internal_access_config, bucket_ids_by_claim_name, set_config, add_config,
  add_configs, generate_internal_accessed_bucket_configs, new_internal_grant_access_config,
  revoke_list, new_internal_revoke_access_config,
}
use container_object_storage.SidecarAccess.Granted.{
  collect_credentials, collect_info, collect_granted, collect_all_granted, granted,
  translate_driver_grant_bucket_access_response_to_api, missing_keys, validate_granted_access,
}
use container_object_storage.SidecarAccess.Buckets.{
  validate_bucket_is_ready_for_access, collect_bucket_error, get_and_validate_bucket,
  get_and_validate_all_accessed_buckets,
}
use container_object_storage.SidecarAccess.Secrets.{
  collect_secret, set_access_secret_required_metadata, send_secret, create_new_owned_access_secret,
  reserve_read, reserve_secret, reserve_access_secrets, collect_updated, update_named_secret,
  update_configured_secret, update_secret_for, update_secrets_with_granted_info, delete_read,
  delete_secret_of, delete_owned_access_secrets,
}
use container_object_storage.SidecarAccess.{
  not_initialized, driver_grant_access, grant, provision_access, driver_revoke_access,
  reconcile_delete, reconcile_access, manage_access_request,
}
use container_object_storage.SidecarAccess.Evidence.{KeepsSecrets, IsCareful}
use container_object_storage.SidecarAccess.Grant.{IsGranted}
use container_object_storage.SidecarAccess.Outcomes.{IsCleanedUp}
use container_object_storage.SidecarAccess.Laws.{
  reconcile_access-IsCareful, reconcile_access-IsGranted, reconcile_access-IsCleanedUp,
}
use container_object_storage.Sample.{
  sample_env, sample_bucket, sample_access, sample_runtime, sample_runtime-IsLawful,
}

abbrev ready_bucket : Bucket
ready_bucket = record sample_bucket {
  status = record sample_bucket.status { bucket_id = "backend-7"; ready_to_use = some true };
}

abbrev pub granting_env : Env
granting_env = record sample_env { on_get_bucket = λ h name. ok ready_bucket }

abbrev pub driver : DriverInfo
driver = record { name = "s3.example.com"; supported_protocols = 1 ∷ [] }

-- The BucketAccess as the Controller hands it over.
abbrev pub handed_over : BucketAccess
handed_over = record sample_access {
  status = record sample_access.status {
    ready_to_use = some false;
    accessed_buckets =
        record { bucket_name = "bc-42"; bucket_id = "backend-7"; bucket_claim_name = "photos" }
        ∷ [];
    driver_name = "s3.example.com";
    authentication_type = "Key";
  };
}

abbrev pub revoked : BucketAccess
revoked = record handed_over {
  metadata = record handed_over.metadata { deletion_timestamp = some 9 };
  status = record handed_over.status { account_id = "account-1"; ready_to_use = some true };
}

pub same_access : {a b : BucketAccess} → ok a ≡ ok b → IsSameAccess a b × (a.status ≡ b.status)
same_access {a} {b} e =
    let p : a ≡ b = cc in
    rw (← p)
      (record { same_namespace = refl; same_name = refl; same_uid = refl; same_spec = refl }, refl)

keeps : KeepsAccesses granting_env
keeps = record { on_object = λ h a b e. same_access e; on_status = λ h a b e. same_access e }

keeps_secrets : KeepsSecrets granting_env
keeps_secrets = record {
  on_get = λ h namespace name s e. cc;
  on_create = λ h s t e. let p : s ≡ t = cc in rw p (refl, refl);
  on_update = λ h s t e. let p : s ≡ t = cc in rw p (refl, refl);
}

reconcile_access-IsCareful_example :
    IsCareful granting_env handed_over
      (reconcile_access granting_env driver (start handed_over)).1.history
reconcile_access-IsCareful_example =
    reconcile_access-IsCareful granting_env driver handed_over sample_runtime-IsLawful keeps
      keeps_secrets

removal_succeeds : (reconcile_access granting_env driver (start revoked)).0 ≡ ok tt
unfolding reconcile_access reconcile_delete update_access update_access_status driver_revoke_access
    delete_owned_access_secrets delete_secret_of delete_read new_internal_revoke_access_config
    revoke_list new_internal_access_config with_ok range ◌>>=◌ error_of sample_runtime dict_get
    dict_set authentication_type_to_rpc api_to_rpc
removal_succeeds = refl

reconcile_access-IsCleanedUp_example :
    IsCleanedUp granting_env revoked
      (reconcile_access granting_env driver (start revoked)).1.history
reconcile_access-IsCleanedUp_example =
    reconcile_access-IsCleanedUp granting_env driver revoked sample_runtime-IsLawful keeps
      keeps_secrets refl refl removal_succeeds

grant_succeeds : (reconcile_access granting_env driver (start handed_over)).0 ≡ ok tt
unfolding reconcile_access provision_access grant driver_grant_access protect_access update_access
    update_access_status get_and_validate_all_accessed_buckets get_and_validate_bucket
    collect_bucket_error validate_bucket_is_ready_for_access reserve_access_secrets reserve_secret
    reserve_read create_new_owned_access_secret set_access_secret_required_metadata collect_secret
    new_internal_grant_access_config generate_internal_accessed_bucket_configs add_configs
    add_config set_config bucket_ids_by_claim_name new_internal_access_config with_ok
    translate_driver_grant_bucket_access_response_to_api collect_all_granted collect_granted
    collect_info collect_credentials granted validate_granted_access missing_keys
    update_secrets_with_granted_info update_secret_for update_configured_secret update_named_secret
    send_secret collect_updated not_initialized sidecar_requirements_present range ◌>>=◌ error_of
    sample_runtime contains dict_get dict_set dict_merge authentication_type_to_rpc
    access_mode_to_rpc translate bucket_info_to_api credentials_to_api api_to_rpc
    s3_bucket_info_translator azure_bucket_info_translator gcs_bucket_info_translator style_to_api
    s3_credential_translator azure_credential_translator gcs_credential_translator
grant_succeeds = refl

reconcile_access-IsGranted_example :
    IsGranted handed_over (reconcile_access granting_env driver (start handed_over)).1.history
reconcile_access-IsGranted_example =
    reconcile_access-IsGranted granting_env driver handed_over sample_runtime-IsLawful keeps
      keeps_secrets refl refl grant_succeeds

-- A BucketAccess whose status has a driver's name, and no Buckets and no authentication type.
abbrev degraded : BucketAccess
degraded = record sample_access {
  status = record sample_access.status { driver_name = "s3.example.com" };
}

abbrev degradation : Error
degradation = non_retryable_error (
    wrapf "processed a degraded BucketAccess: %w" [] (
      errorf "fields required for sidecar provisioning are only partially set: %v" (
        flags (
          ("status.accessedBuckets", false)
          ∷ ("status.driverName", true)
          ∷ ("status.authenticationType", false)
          ∷ [])
        ∷ [])))

abbrev degraded_env : Env
degraded_env = record granting_env { on_get_bucket_access = λ h namespace name. ok degraded }

degraded_fails :
    (reconcile_access degraded_env driver (record {
      object = degraded;
      history = get_bucket_access "apps" "photos-access" (ok degraded) ∷ [];
    })).0
    ≡ err degradation
unfolding reconcile_access provision_access sidecar_requirements_present ◌>>=◌ dict_set
degraded_fails = refl

degraded_is_managed : managed_by_sidecar degraded ≡ true
unfolding managed_by_sidecar dict_get
degraded_is_managed = refl

manage_access_request-IsRecorded_example :
    IsRecorded update_bucket_access_status
      (HasError degraded_env)
      (wrapf "COSI Sidecar error: %w" [] degradation)
      (manage_access_request degraded_env driver "apps" "photos-access" []).0
      (manage_access_request degraded_env driver "apps" "photos-access" []).1
manage_access_request-IsRecorded_example =
    manage_access_request-IsRecorded degraded_env driver "apps" "photos-access" [] degraded
      degradation refl degraded_is_managed degraded_fails
