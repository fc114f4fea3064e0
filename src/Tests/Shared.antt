-- ===== src/Tests/Shared.antt =====
-- The code that the Controller and the Sidecar share, and the driver's info.
use Prim.Native.String.{String, len}
use container_object_storage.Prelude.{
  ◌≡◌, ◌≢◌, ◌↔◌, ◌⊎◌, ◌≤◌, refl, true, false, none, List, [], ◌∷◌, All, dict_get, ℕ,
}
use container_object_storage.Errors.{
  Error, wrapf, non_retryable_error, foreign, is_non_retryable, ok, err,
}
use container_object_storage.Errors.Laws.{Wraps, is_non_retryable-iff-Wraps}
use container_object_storage.Api.Meta.{is_deleting, protection_finalizer}
use container_object_storage.Api.Access.{BucketAccess, BucketAccessStatus}
use container_object_storage.Runtime.{admits, update, bucket_access}
use container_object_storage.Ownership.{managed_by_sidecar, sidecar_requirements_present}
use container_object_storage.Ownership.Laws.{
  BelongsToSidecar, IsInitialized, IsUninitialized, managed_by_sidecar-iff-BelongsToSidecar,
  sidecar_requirements_present_cases,
}
use container_object_storage.Driver.{
  validate_driver_name, validate_and_parse_protocols, split_labels,
  validate_and_set_driver_connection_info, DriverInfo,
}
use container_object_storage.Driver.Laws.{IsDistinct, validate_and_set_driver_connection_info_iff}
use container_object_storage.Predicate.{controller_access_filter, sidecar_access_filter}
use container_object_storage.Predicate.Laws
use container_object_storage.Sample.{sample_meta, sample_runtime, sample_runtime-IsLawful}

abbrev wrapped : Error
wrapped = wrapf "COSI Sidecar error: %w" [] (non_retryable_error (foreign 1))

is_non_retryable-iff-Wraps_example :
    (is_non_retryable wrapped ≡ true) ↔ ((c : Error) × Wraps (non_retryable_error c) wrapped)
is_non_retryable-iff-Wraps_example = is_non_retryable-iff-Wraps wrapped

abbrev fresh_status : BucketAccessStatus
fresh_status = record {
  ready_to_use = none;
  account_id = "";
  accessed_buckets = [];
  driver_name = "";
  authentication_type = "";
  parameters = [];
  error = none;
}

abbrev fresh_access : BucketAccess
fresh_access = record {
  metadata = sample_meta;
  spec = record {
    bucket_claims = [];
    bucket_access_class_name = "gold";
    protocol = "S3";
    service_account_name = "";
  };
  status = fresh_status;
}

-- After the Controller has initialised the access.
abbrev handed_over : BucketAccess
handed_over = record fresh_access {
  status = record fresh_status {
    accessed_buckets = record { bucket_name = "b"; bucket_id = "i"; bucket_claim_name = "c" } ∷ [];
    driver_name = "s3.example.com";
    authentication_type = "Key";
  };
}

handed_over_managed : managed_by_sidecar handed_over ≡ true
unfolding managed_by_sidecar dict_get
handed_over_managed = refl

fresh_not_managed : managed_by_sidecar fresh_access ≡ false
unfolding managed_by_sidecar dict_get
fresh_not_managed = refl

managed_by_sidecar-iff-BelongsToSidecar_example :
    (managed_by_sidecar handed_over ≡ true) ↔ BelongsToSidecar handed_over
managed_by_sidecar-iff-BelongsToSidecar_example =
    managed_by_sidecar-iff-BelongsToSidecar handed_over

sidecar_requirements_present_cases_example :
    ((sidecar_requirements_present fresh_status ≡ ok true) ↔ IsInitialized fresh_status)
    × ((sidecar_requirements_present fresh_status ≡ ok false) ↔ IsUninitialized fresh_status)
    × ((¬ IsInitialized fresh_status) × (¬ IsUninitialized fresh_status)
        ↔ ((e : Error) × (sidecar_requirements_present fresh_status ≡ err e)))
sidecar_requirements_present_cases_example = sidecar_requirements_present_cases fresh_status

handoff : managed_by_sidecar fresh_access ≢ managed_by_sidecar handed_over
unfolding managed_by_sidecar dict_get
handoff h = cc

handoff-reaches_new_manager_example :
    ((managed_by_sidecar handed_over ≡ false)
      × (admits
            (controller_access_filter sample_runtime)
            (update (bucket_access fresh_access) (bucket_access handed_over))
          ≡ true))
    ⊎ ((managed_by_sidecar handed_over ≡ true)
        × (admits
              (sidecar_access_filter sample_runtime "s3.example.com")
              (update (bucket_access fresh_access) (bucket_access handed_over))
            ≡ true))
handoff-reaches_new_manager_example =
    Laws.handoff-reaches_new_manager sample_runtime-IsLawful fresh_access handed_over handoff

controller_access_filter-update_example :
    (admits
        (controller_access_filter sample_runtime)
        (update (bucket_access handed_over) (bucket_access fresh_access))
      ≡ true)
    ↔ ((managed_by_sidecar fresh_access ≡ false)
        × ((managed_by_sidecar handed_over ≡ true)
            ⊎ (is_deleting fresh_access.metadata ≡ false)
              × (sample_runtime.contains_finalizer handed_over.metadata.finalizers
                    protection_finalizer
                  ≡ true)
              × (sample_runtime.contains_finalizer fresh_access.metadata.finalizers
                    protection_finalizer
                  ≡ false)))
controller_access_filter-update_example =
    Laws.controller_access_filter-update sample_runtime-IsLawful handed_over fresh_access

sidecar_access_filter-update_example :
    (admits
        (sidecar_access_filter sample_runtime "s3.example.com")
        (update (bucket_access fresh_access) (bucket_access handed_over))
      ≡ true)
    ↔ ((handed_over.status.driver_name ≡ "s3.example.com")
        × ((managed_by_sidecar fresh_access ≢ managed_by_sidecar handed_over)
            ⊎ (is_deleting handed_over.metadata ≡ false)
              × (sample_runtime.contains_finalizer fresh_access.metadata.finalizers
                    protection_finalizer
                  ≡ true)
              × (sample_runtime.contains_finalizer handed_over.metadata.finalizers
                    protection_finalizer
                  ≡ false)))
sidecar_access_filter-update_example =
    Laws.sidecar_access_filter-update sample_runtime-IsLawful "s3.example.com" fresh_access
      handed_over

abbrev no_errors_found : String → List String
no_errors_found l = []

abbrev protocols : List ℕ
protocols = 1 ∷ []

abbrev sample_info : DriverInfo
sample_info = record { name = "s3.example.com"; supported_protocols = 1 ∷ [] }

validate_and_set_driver_connection_info_iff_example :
    (validate_and_set_driver_connection_info no_errors_found "s3.example.com" (1 ∷ [])
      ≡ ok sample_info)
    ↔ ((sample_info.name ≡ "s3.example.com")
        × (sample_info.supported_protocols ≡ 1 ∷ [])
        × (len "s3.example.com" ≤ 63)
        × All (λ l. no_errors_found l ≡ []) (split_labels "s3.example.com")
        × (protocols ≢ [])
        × All (λ t. t ≢ 0) protocols
        × IsDistinct protocols)
validate_and_set_driver_connection_info_iff_example =
    validate_and_set_driver_connection_info_iff no_errors_found "s3.example.com" (1 ∷ [])
      sample_info

connects :
    validate_and_set_driver_connection_info no_errors_found "s3.example.com" (1 ∷ [])
    ≡ ok sample_info
unfolding validate_and_set_driver_connection_info validate_driver_name split_labels
    validate_and_parse_protocols
connects = refl
