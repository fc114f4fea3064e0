-- ===== src/Ownership/Laws.antt =====
-- bucketaccess.go: the manager and the requirements of the Sidecar, described without the code's
-- order of tests.
use container_object_storage.Prelude.{
  Bool, inl, inr, ◌≡◌, ◌≢◌, ◌↔◌, ◌⊎◌, true, false, [], arith, eq_iff,
}
use container_object_storage.Errors.{Error, err, Result-cases, ok}
use container_object_storage.Api.Meta.{
  sidecar_cleanup_finished_annotation, controller_management_override_annotation, is_deleting,
  has_annotation,
}
use container_object_storage.Api.Access.{BucketAccess, BucketAccessStatus}
use container_object_storage.Ownership.{managed_by_sidecar, sidecar_requirements_present}

-- A BucketAccess that the Sidecar manages: the Controller has not taken it back, it was handed over
-- with a driver's name, and while it is deleted the Sidecar has not finished its cleanup.
pub record BelongsToSidecar (ba : BucketAccess) : Type 0 where
  pub not_overridden : has_annotation controller_management_override_annotation ba.metadata ≡ false
  pub handed_over : ba.status.driver_name ≢ ""
  pub cleanup_pending :
      (is_deleting ba.metadata ≡ false)
      ⊎ (has_annotation sidecar_cleanup_finished_annotation ba.metadata ≡ false)

-- The Sidecar manages a BucketAccess exactly when the Controller does not override it, a driver is
-- named in its status, and it is not being deleted or the Sidecar's cleanup is not finished.
pub managed_by_sidecar-iff-BelongsToSidecar :
    (ba : BucketAccess) → (managed_by_sidecar ba ≡ true) ↔ BelongsToSidecar ba
unfolding managed_by_sidecar
managed_by_sidecar-iff-BelongsToSidecar ba = (
  λ h. ground (arith, eq_iff ba.status.driver_name ""),
  λ b. ground (arith, eq_iff ba.status.driver_name ""),
)

-- All that the Sidecar needs is there.
pub record IsInitialized (s : BucketAccessStatus) : Type 0 where
  pub has_buckets : s.accessed_buckets ≢ []
  pub has_driver : s.driver_name ≢ ""
  pub has_authentication : s.authentication_type ≢ ""

-- Nothing that the Sidecar needs is there.
pub record IsUninitialized (s : BucketAccessStatus) : Type 0 where
  pub no_buckets : s.accessed_buckets ≡ []
  pub no_driver : s.driver_name ≡ ""
  pub no_authentication : s.authentication_type ≡ ""

requirements_present :
    (s : BucketAccessStatus) → (sidecar_requirements_present s ≡ ok true) ↔ IsInitialized s
unfolding sidecar_requirements_present
requirements_present s = (
  λ h. ground (arith, eq_iff s.driver_name "", eq_iff s.authentication_type ""),
  λ b. ground (arith, eq_iff s.driver_name "", eq_iff s.authentication_type ""),
)

requirements_absent :
    (s : BucketAccessStatus) → (sidecar_requirements_present s ≡ ok false) ↔ IsUninitialized s
unfolding sidecar_requirements_present
requirements_absent s = (
  λ h. ground (arith, eq_iff s.driver_name "", eq_iff s.authentication_type ""),
  λ b. ground (arith, eq_iff s.driver_name "", eq_iff s.authentication_type ""),
)

-- The requirements of the Sidecar are reported present exactly when all three fields are set, absent
-- exactly when none is, and otherwise an error is reported.
pub sidecar_requirements_present_cases :
    (s : BucketAccessStatus)
    → ((sidecar_requirements_present s ≡ ok true) ↔ IsInitialized s)
      × ((sidecar_requirements_present s ≡ ok false) ↔ IsUninitialized s)
      × ((¬ IsInitialized s) × (¬ IsUninitialized s)
          ↔ ((e : Error) × (sidecar_requirements_present s ≡ err e)))
sidecar_requirements_present_cases s = (
  requirements_present s,
  requirements_absent s,
  partial (Result-cases (sidecar_requirements_present s)),
)
  where
    partial :
        ((b : Bool) × (sidecar_requirements_present s ≡ ok b))
          ⊎ ((e : Error) × (sidecar_requirements_present s ≡ err e))
        → ((¬ IsInitialized s) × (¬ IsUninitialized s)
            ↔ ((e : Error) × (sidecar_requirements_present s ≡ err e)))
    partial (inl (true, e)) = (λ h. absurd (h.0 ((requirements_present s).0 e)), λ h. cc)
    partial (inl (false, e)) = (λ h. absurd (h.1 ((requirements_absent s).0 e)), λ h. cc)
    partial (inr (x, e)) = (
      λ h. (x, e),
      λ h. (λ i. cc ((requirements_present s).1 i), λ i. cc ((requirements_absent s).1 i)),
    )
