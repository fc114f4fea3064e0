-- ===== src/Predicate.antt =====
-- internal/predicate/predicate.go: the event filters of the reconcilers, and the filters that the
-- four `SetupWithManager` functions compose of them. Logging is left out.
pub mod Laws
use container_object_storage.Prelude.{
  Bool, true, false, not, ◌&&◌, String, List, [], ◌∷◌, if◌then◌else◌,
}
use container_object_storage.Api.Meta.{protection_finalizer, is_deleting}
use container_object_storage.Api.Access.{BucketAccess}
use container_object_storage.Runtime.{
  Object, bucket, bucket_claim, bucket_access, other, object_meta, Runtime, Funcs,
}
use container_object_storage.Ownership.{managed_by_sidecar}
use container_object_storage.Driver.{driver_name_matches_predicate}

unfoldable pub all_false_funcs : Funcs
all_false_funcs = record {
  create_func = λ o. false;
  update_func = λ old new. false;
  delete_func = λ o. false;
  generic_func = λ o. false;
}

unfoldable pub any_create : Funcs
unfolding all_false_funcs
any_create = record all_false_funcs { create_func = λ o. true }

unfoldable pub any_delete : Funcs
unfolding all_false_funcs
any_delete = record all_false_funcs { delete_func = λ o. true }

unfoldable pub any_generic : Funcs
unfolding all_false_funcs
any_generic = record all_false_funcs { generic_func = λ o. true }

differs : Bool → Bool → Bool
differs true true = false
differs false false = false
differs _ _ = true

unfoldable pub handoff_occurred : BucketAccess → BucketAccess → Bool
unfolding differs
handoff_occurred old new = differs (managed_by_sidecar old) (managed_by_sidecar new)

-- Both objects are BucketAccesses, and the manager changes.
handoff_update : Object → Object → Bool
unfolding handoff_occurred
handoff_update (bucket_access old) (bucket_access new) = handoff_occurred old new
handoff_update _ _ = false

unfoldable pub bucket_access_handoff_occurred : Funcs
unfolding all_false_funcs handoff_update
bucket_access_handoff_occurred = record all_false_funcs { update_func = handoff_update }

managed_by_sidecar_object : Object → Bool
managed_by_sidecar_object (bucket_access ba) = managed_by_sidecar ba
managed_by_sidecar_object _ = false

managed_by_controller_object : Object → Bool
managed_by_controller_object (bucket_access ba) = not (managed_by_sidecar ba)
managed_by_controller_object _ = false

module _ (r : Runtime) where
  unfoldable pub generation_changed_in_update_only : Funcs
  unfolding all_false_funcs
  generation_changed_in_update_only = record all_false_funcs { update_func = r.generation_changed }

  protection_finalizer_update : Object → Object → Bool
  protection_finalizer_update old new =
      if is_deleting (object_meta new)
      then false
      else (r.contains_finalizer (object_meta old).finalizers protection_finalizer
          && not (r.contains_finalizer (object_meta new).finalizers protection_finalizer))

  unfoldable pub protection_finalizer_removed : Funcs
  unfolding all_false_funcs protection_finalizer_update
  protection_finalizer_removed = record all_false_funcs {
    update_func = protection_finalizer_update;
  }

  unfoldable pub bucket_access_managed_by_sidecar : Funcs
  unfolding managed_by_sidecar_object
  bucket_access_managed_by_sidecar = r.new_predicate_funcs managed_by_sidecar_object

  unfoldable pub bucket_access_managed_by_controller : Funcs
  unfolding managed_by_controller_object
  bucket_access_managed_by_controller = r.new_predicate_funcs managed_by_controller_object

  -- (*BucketReconciler).SetupWithManager of the Sidecar
  unfoldable pub sidecar_bucket_filter : String → Funcs
  sidecar_bucket_filter driver_name = r.both (driver_name_matches_predicate r driver_name) (
      r.any_of (
        any_create ∷ any_delete ∷ any_generic ∷ generation_changed_in_update_only
        ∷ protection_finalizer_removed ∷ []))

  -- (*BucketAccessReconciler).SetupWithManager of the Sidecar
  unfoldable pub sidecar_access_filter : String → Funcs
  sidecar_access_filter driver_name = r.both (driver_name_matches_predicate r driver_name) (
      r.any_of (
        any_create ∷ any_delete ∷ any_generic ∷ bucket_access_handoff_occurred
        ∷ protection_finalizer_removed ∷ []))

  -- (*BucketAccessReconciler).SetupWithManager of the Controller
  unfoldable pub controller_access_filter : Funcs
  controller_access_filter = r.both bucket_access_managed_by_controller (
      r.any_of (
        any_create ∷ any_delete ∷ any_generic ∷ bucket_access_handoff_occurred
        ∷ protection_finalizer_removed ∷ []))

  -- (*BucketClaimReconciler).SetupWithManager
  unfoldable pub controller_claim_filter : Funcs
  controller_claim_filter = r.any_of (
      any_create ∷ any_delete ∷ any_generic ∷ generation_changed_in_update_only
      ∷ protection_finalizer_removed ∷ [])
