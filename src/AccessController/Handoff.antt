-- ===== src/AccessController/Handoff.antt =====
-- bucketaccess.go of the Controller, with internal/bucketaccess: what the Sidecar finds.
use container_object_storage.Prelude.{◌≡◌, ◌≢◌, ◌∙◌, refl, sym, inr, false, true, List, [], ◌∷◌}
use container_object_storage.Errors.{ok}
use container_object_storage.Api.Meta.{is_deleting}
use container_object_storage.Api.Access.{
  BucketAccess, BucketAccessClass, BucketClaimAccess, AccessedBucket,
}
use container_object_storage.Runtime.{IsLawful}
use container_object_storage.Ownership.{sidecar_requirements_present}
use container_object_storage.Ownership.Laws.{sidecar_requirements_present_cases}
use container_object_storage.World.{
  Env, History, get_bucket_access_class, update_bucket_access_status,
}
use container_object_storage.World.Recorded.{Recorded}
use container_object_storage.World.Action.{start}
use container_object_storage.World.Accesses.Protection.{KeepsAccesses}
use container_object_storage.AccessController.Evidence.{
  AreAccessible, IsInitializedFrom, IsHandedOver,
}
use container_object_storage.AccessController.Living.{reconcile_access-IsHandedOver}
use container_object_storage.AccessController.{reconcile_access}

-- The latest call stored a status that has everything the Sidecar requires.
abbrev pub HasRequirements : History → Type 0
HasRequirements (update_bucket_access_status b (ok c) ∷ h) =
    sidecar_requirements_present b.status ≡ ok true
HasRequirements _ = ⊥

-- Every class that the server answered names a driver and an authentication type, as the API's
-- validation demands.
abbrev pub HasValidClasses : BucketAccess → History → Type 0
HasValidClasses a h =
    (c : BucketAccessClass)
    → Recorded (get_bucket_access_class a.spec.bucket_access_class_name (ok c)) h
    → (c.spec.driver_name ≢ "") × (c.spec.authentication_type ≢ "")

module _ (a : BucketAccess) where
  accessible-nonempty :
      (h : History) (refs : List BucketClaimAccess) (xs : List AccessedBucket)
      → refs ≢ []
      → AreAccessible a h refs xs
      → xs ≢ []
  accessible-nonempty h [] xs n g = absurd (n refl)
  accessible-nonempty h (r ∷ rs) [] n g = absurd g
  accessible-nonempty h (r ∷ rs) (x ∷ xs) n g = λ e. cc

  initialized-requirements :
      (h : History) (b : BucketAccess)
      → a.spec.bucket_claims ≢ []
      → HasValidClasses a h
      → IsInitializedFrom a h b
      → sidecar_requirements_present b.status ≡ ok true
  initialized-requirements h b n valid i =
      let (driver, authentication) = valid i.class i.is_class in
      (sidecar_requirements_present_cases b.status).0.1 (record {
        has_buckets =
            accessible-nonempty h a.spec.bucket_claims b.status.accessed_buckets n i.accessible;
        has_driver = λ e. driver (sym i.same_driver ∙ e);
        has_authentication = λ e. authentication (sym i.same_authentication ∙ e);
      })

  handed_over-HasRequirements :
      (h : History)
      → a.spec.bucket_claims ≢ []
      → HasValidClasses a h
      → IsHandedOver a h
      → HasRequirements h
  handed_over-HasRequirements (update_bucket_access_status b (ok c) ∷ h) n valid i =
      initialized-requirements h b n (λ k p. valid k (inr p)) i
  handed_over-HasRequirements _ n valid i = absurd i

-- When the reconcile of a living BucketAccess that references a claim returns no error, and the classes
-- that the server answered name a driver and an authentication type, then the status that its latest
-- call stored has everything that the Sidecar requires of it.
pub reconcile_access-HasRequirements :
    (env : Env) (a : BucketAccess)
    → IsLawful env.runtime
    → KeepsAccesses env
    → is_deleting a.metadata ≡ false
    → a.spec.bucket_claims ≢ []
    → HasValidClasses a (reconcile_access env (start a)).1.history
    → (reconcile_access env (start a)).0 ≡ ok tt
    → HasRequirements (reconcile_access env (start a)).1.history
reconcile_access-HasRequirements env a l keeps living n valid success =
    handed_over-HasRequirements a (reconcile_access env (start a)).1.history n valid
      (reconcile_access-IsHandedOver env a l keeps living success)
