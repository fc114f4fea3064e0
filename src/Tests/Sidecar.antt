-- ===== src/Tests/Sidecar.antt =====
-- The reconciler of Buckets in the Sidecar.
use container_object_storage.Prelude.{
  ◌≡◌, refl, String, ℕ, List, [], ◌∷◌, contains, dict_get, dict_set, dict_merge,
}
use container_object_storage.Errors.{ok}
use container_object_storage.Driver.{DriverInfo, supports_protocol}
use container_object_storage.Translator.{translate, bucket_info_to_api}
use container_object_storage.Protocol.{api_to_rpc}
use container_object_storage.Protocol.S3.{s3_bucket_info_translator}
use container_object_storage.Protocol.Azure.{azure_bucket_info_translator}
use container_object_storage.Protocol.Gcs.{gcs_bucket_info_translator}
use container_object_storage.World.Action.{start, ◌>>=◌}
use container_object_storage.SidecarBucket.{
  reconcile, cleanup, provisioning, protect, provision, finish, update, update_status,
  set_finalizers, missing_protocols,
}
use container_object_storage.SidecarBucket.Provision.{
  check_response, dynamic_provision, static_provision, object_protocol_list_from_api_list,
  validate_bucket_supports_protocols, validate_driver_supports_protocols,
}
use container_object_storage.SidecarBucket.Protection.{IsProtected, reconcile-IsProtected}
use container_object_storage.SidecarBucket.Readiness.{IsReadied, reconcile-IsReadied}
use container_object_storage.Sample.{
  sample_env, sample_bucket, sample_runtime, sample_runtime-IsLawful,
}

abbrev info : DriverInfo
info = record { name = "s3.example.com"; supported_protocols = 1 ∷ [] }

reconcile_succeeds : (reconcile sample_env info (start sample_bucket)).0 ≡ ok tt
unfolding reconcile cleanup provisioning protect provision finish update update_status
    set_finalizers dynamic_provision static_provision missing_protocols ◌>>=◌ check_response
    bucket_info_to_api object_protocol_list_from_api_list validate_driver_supports_protocols
    validate_bucket_supports_protocols supports_protocol translate sample_runtime contains dict_get
    dict_set dict_merge s3_bucket_info_translator azure_bucket_info_translator
    gcs_bucket_info_translator api_to_rpc
reconcile_succeeds = refl

reconcile-IsReadied_example : IsReadied (reconcile sample_env info (start sample_bucket)).1.history
reconcile-IsReadied_example =
    reconcile-IsReadied sample_env info sample_bucket refl refl reconcile_succeeds

reconcile-IsProtected_example :
    IsProtected sample_env sample_bucket (reconcile sample_env info (start sample_bucket)).1.history
reconcile-IsProtected_example =
    reconcile-IsProtected sample_env sample_bucket sample_runtime-IsLawful info

abbrev api_list : List String
api_list = "S3" ∷ "GCS" ∷ []

abbrev rpc_list : List ℕ
rpc_list = 1 ∷ 3 ∷ []
