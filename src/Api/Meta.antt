-- ===== src/Api/Meta.antt =====
-- The object metadata that the code reads, and shared_types.go, definitions.go, protocols.go.
use container_object_storage.Prelude.{
  ℕ, String, Bool, Option, none, some, List, ◌==◌, Dict, dict_has, is_some, nat_eq, if◌then◌else◌,
}

-- The part of `metav1.ObjectMeta` that the code reads or writes. `owners` lists the UIDs in the
-- owner references with their `controller` flags.
pub record ObjectMeta : Type 0 where
  pub name : String
  pub namespace : String
  pub uid : String
  pub finalizers : List String
  pub annotations : Dict String
  pub deletion_timestamp : Option ℕ
  pub owners : List (String × Bool)

-- !o.GetDeletionTimestamp().IsZero()
abbrev pub is_deleting : ObjectMeta → Bool
is_deleting m = is_some m.deletion_timestamp

-- _, ok := o.Annotations[key]
abbrev pub has_annotation : String → ObjectMeta → Bool
has_annotation key m = dict_has m.annotations key

pub record TimestampedError : Type 0 where
  pub time : Option ℕ
  pub message : Option String

-- The zero time is 0.
unfoldable pub new_timestamped_error : ℕ → String → TimestampedError
new_timestamped_error t m = record {
  time = if nat_eq t 0 then none else some t;
  message = if m == "" then none else some m;
}

abbrev pub protection_finalizer : String
protection_finalizer = "objectstorage.k8s.io/protection"

abbrev pub bucket_claim_being_deleted_annotation : String
bucket_claim_being_deleted_annotation = "objectstorage.k8.io/bucketclaim-being-deleted"

abbrev pub has_bucket_access_references_annotation : String
has_bucket_access_references_annotation = "objectstorage.k8s.io/has-bucketaccess-references"

abbrev pub sidecar_cleanup_finished_annotation : String
sidecar_cleanup_finished_annotation = "objectstorage.k8s.io/sidecar-cleanup-finished"

abbrev pub controller_management_override_annotation : String
controller_management_override_annotation = "objectstorage.k8s.io/controller-management-override"
