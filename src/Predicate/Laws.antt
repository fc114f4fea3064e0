-- ===== src/Predicate/Laws.antt =====
-- predicate.go: which events reach the reconcilers.
use container_object_storage.Prelude.{
  ◌≡◌, ◌≢◌, ◌↔◌, ◌⊎◌, inl, inr, refl, Bool-cases, ◌==◌, true, false, not, ◌||◌, String, [], ◌∷◌,
  arith, eq_iff,
}
use container_object_storage.Api.Meta.{protection_finalizer, is_deleting}
use container_object_storage.Api.Access.{BucketAccess}
use container_object_storage.Runtime.{
  bucket_access, object_meta, Runtime, IsLawful, Event, create, update, delete, generic, admits,
  event_object,
}
use container_object_storage.Ownership.{managed_by_sidecar}
use container_object_storage.Driver.{driver_name_matches, driver_name_matches_predicate}
use container_object_storage.Predicate.{
  any_create, any_delete, any_generic, bucket_access_handoff_occurred, protection_finalizer_removed,
  controller_access_filter, sidecar_access_filter, bucket_access_managed_by_controller,
  protection_finalizer_update, handoff_occurred,
}

-- An event of the BucketAccess that is no update.
pub data IsPlain (ba : BucketAccess) : Event → Type 0 where
  is_create : IsPlain ba (create (bucket_access ba))
  is_delete : IsPlain ba (delete (bucket_access ba))
  is_generic : IsPlain ba (generic (bucket_access ba))

module _ {r : Runtime} (l : IsLawful r) where
  -- The five filters of a BucketAccess reconciler, joined.
  access_events :
      (e : Event)
      → admits
          (r.any_of (
            any_create
            ∷ any_delete
            ∷ any_generic
            ∷ bucket_access_handoff_occurred
            ∷ protection_finalizer_removed r
            ∷ []))
          e
        ≡ (admits any_create e
            || (admits any_delete e
                || (admits any_generic e
                    || (admits bucket_access_handoff_occurred e
                        || (admits (protection_finalizer_removed r) e || false)))))
  access_events e = simp (l.any_of_cons, l.any_of_nil)

  -- Where the combinators of filters do what they document, an update of a BucketAccess reaches the
  -- Controller's reconciler exactly when the Controller manages the new BucketAccess, and either the
  -- Sidecar managed the old one, or the new one is not being deleted and lost its protection
  -- finalizer.
  pub controller_access_filter-update :
      (old new : BucketAccess)
      → (admits (controller_access_filter r) (update (bucket_access old) (bucket_access new))
          ≡ true)
        ↔ ((managed_by_sidecar new ≡ false)
            × ((managed_by_sidecar old ≡ true)
                ⊎ (is_deleting new.metadata ≡ false)
                  × (r.contains_finalizer old.metadata.finalizers protection_finalizer ≡ true)
                  × (r.contains_finalizer new.metadata.finalizers protection_finalizer ≡ false)))
  unfolding controller_access_filter bucket_access_managed_by_controller any_create any_delete
      any_generic bucket_access_handoff_occurred protection_finalizer_removed admits object_meta
      event_object
  controller_access_filter-update old new =
      simp (l.both_lem, l.new_predicate_funcs_lem, access_events)
        (unfold handoff_occurred protection_finalizer_update object_meta in
          (λ h. ground arith, λ h. ground arith))

  -- Where the combinators of filters do what they document, an update of a BucketAccess reaches the
  -- Sidecar's reconciler exactly when the new BucketAccess names the Sidecar's driver, and either
  -- its manager changed, or it is not being deleted and lost its protection finalizer.
  pub sidecar_access_filter-update :
      (driver_name : String) (old new : BucketAccess)
      → (admits
            (sidecar_access_filter r driver_name)
            (update (bucket_access old) (bucket_access new))
          ≡ true)
        ↔ ((new.status.driver_name ≡ driver_name)
            × ((managed_by_sidecar old ≢ managed_by_sidecar new)
                ⊎ (is_deleting new.metadata ≡ false)
                  × (r.contains_finalizer old.metadata.finalizers protection_finalizer ≡ true)
                  × (r.contains_finalizer new.metadata.finalizers protection_finalizer ≡ false)))
  unfolding sidecar_access_filter driver_name_matches_predicate any_create any_delete any_generic
      bucket_access_handoff_occurred protection_finalizer_removed admits event_object
  sidecar_access_filter-update driver_name old new =
      simp (l.both_lem, l.new_predicate_funcs_lem, access_events)
        (unfold handoff_occurred driver_name_matches protection_finalizer_update object_meta in
          (
            λ h. ground (arith, eq_iff new.status.driver_name driver_name),
            λ h. ground (arith, eq_iff new.status.driver_name driver_name),
          ))

  -- Where the combinators of filters do what they document, no handoff is lost: an update that
  -- changes the manager of a BucketAccess reaches the reconciler of the new manager, which is the
  -- Controller's, or that of the Sidecar whose driver the new BucketAccess names.
  pub handoff-reaches_new_manager :
      (old new : BucketAccess)
      → managed_by_sidecar old ≢ managed_by_sidecar new
      → ((managed_by_sidecar new ≡ false)
          × (admits (controller_access_filter r) (update (bucket_access old) (bucket_access new))
              ≡ true))
        ⊎ ((managed_by_sidecar new ≡ true)
            × (admits
                  (sidecar_access_filter r new.status.driver_name)
                  (update (bucket_access old) (bucket_access new))
                ≡ true))
  handoff-reaches_new_manager old new h =
      let c = controller_access_filter-update old new in
      let s = sidecar_access_filter-update new.status.driver_name old new in
      elim (Bool-cases (managed_by_sidecar new)) [
        | inl p ↦ inr (p, s.1 (refl, inl h))
        | inr p ↦ inl (p, c.1 (p, inl (ground arith)))
      ]

  -- Where the combinators of filters do what they document, a creation, deletion or generic event of
  -- a BucketAccess reaches the Controller's reconciler exactly when the Controller manages it, and a
  -- Sidecar's exactly when it names the driver.
  pub access_filters-managed :
      (driver_name : String) (ba : BucketAccess) (e : Event)
      → IsPlain ba e
      → (admits (controller_access_filter r) e ≡ not (managed_by_sidecar ba))
        × (admits (sidecar_access_filter r driver_name) e ≡ (ba.status.driver_name == driver_name))
  unfolding sidecar_access_filter controller_access_filter driver_name_matches_predicate
      bucket_access_managed_by_controller any_create any_delete any_generic
      bucket_access_handoff_occurred protection_finalizer_removed admits event_object
      driver_name_matches
  access_filters-managed driver_name ba e is_create =
      simp (l.both_lem, l.new_predicate_funcs_lem, access_events) (ground arith)
  access_filters-managed driver_name ba e is_delete =
      simp (l.both_lem, l.new_predicate_funcs_lem, access_events) (ground arith)
  access_filters-managed driver_name ba e is_generic =
      simp (l.both_lem, l.new_predicate_funcs_lem, access_events) (ground arith)
