-- ===== src/Ownership.antt =====
-- internal/bucketaccess/bucketaccess.go: which component manages a BucketAccess, and whether its
-- status has what the Sidecar needs.
pub mod Laws
use container_object_storage.Prelude.{
  ℕ, String, Bool, true, false, not, Option, none, some, List, [], ◌∷◌, ◌++◌, ◌==◌, Dict, dict_set,
  dict_size, length, is_empty, nat_eq, if◌then◌else◌,
}
use container_object_storage.Errors.{Error, errorf, flags, Result, ok, err}
use container_object_storage.Api.Meta.{
  sidecar_cleanup_finished_annotation, controller_management_override_annotation, is_deleting,
  has_annotation,
}
use container_object_storage.Api.Access.{BucketAccess, BucketAccessStatus}

unfoldable pub managed_by_sidecar : BucketAccess → Bool
managed_by_sidecar ba =
    if has_annotation controller_management_override_annotation ba.metadata
    then false
    else if ba.status.driver_name == ""
    then false
    else if is_deleting ba.metadata
    then not (has_annotation sidecar_cleanup_finished_annotation ba.metadata)
    else true

-- The closure `requiredFieldIsSet` over the map `requiredFields` and the list `set`.
required_field_is_set : String → Bool → Dict Bool × List String → Dict Bool × List String
required_field_is_set field_name is_set (required_fields, set) =
    (dict_set required_fields field_name is_set, if is_set then set ++ field_name ∷ [] else set)

unfoldable pub sidecar_requirements_present : BucketAccessStatus → Result Bool
unfolding required_field_is_set dict_set
sidecar_requirements_present s =
    let fields =
      required_field_is_set "status.authenticationType" (not (s.authentication_type == "")) (
        required_field_is_set "status.driverName" (not (s.driver_name == "")) (
          required_field_is_set "status.accessedBuckets" (not (is_empty s.accessed_buckets))
            ([], []))) in
    if nat_eq (length fields.1) 0
    then ok false
    else if nat_eq (length fields.1) (dict_size fields.0)
    then ok true
    else err (
        errorf "fields required for sidecar provisioning are only partially set: %v"
          (flags fields.0 ∷ []))
