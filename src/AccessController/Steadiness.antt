-- ===== src/AccessController/Steadiness.antt =====
-- controller/pkg/reconciler/bucketaccess.go: a BucketAccess that was handed over to the Sidecar is not
-- initialised again, and its deletion leaves the hand-over as it is.
use container_object_storage.Prelude.{◌≡◌, ap, sym, String, true, Option, none, some, List}
use container_object_storage.Errors.{Error, ok}
use container_object_storage.Api.Access.{BucketAccess, BucketClaimAccess}
use container_object_storage.Api.Bucket.{BucketClaim}
use container_object_storage.Ownership.{sidecar_requirements_present}
use container_object_storage.World.{Env}
use container_object_storage.World.Ensures.Invariant.{
  Preserves, Preserves-lifted, Preserves-checked, Preserves-bind, Preserves-object,
  Preserves-branch, Preserves-pure, Preserves-on_error,
}
use container_object_storage.World.Accesses.Protection.{KeepsAccesses}
use container_object_storage.World.Accesses.Steady.{
  IsKept, Steady-object, Steady, steady, update_access-Steady,
}
use container_object_storage.AccessController.Marks.{
  get_claim, get_all_bucket_claims, unmark_claim, unmark_unaccessed_bucket_claims,
}
use container_object_storage.AccessController.{
  already_initialized, initialize, finalize, reconcile_access, control_access,
}

-- The Controller has initialised the BucketAccess.
abbrev pub MeetsRequirements : BucketAccess → Type 0
MeetsRequirements a = sidecar_requirements_present a.status ≡ ok true

-- Whether a BucketAccess meets them is part of the hand-over.
pub IsKept-MeetsRequirements :
    (a b : BucketAccess) → IsKept a b → MeetsRequirements a → MeetsRequirements b
unfolding sidecar_requirements_present
IsKept-MeetsRequirements a b k h =
    rw
      (
        ap (λ o. o.driver_name) (sym k),
        ap (λ o. o.authentication_type) (sym k),
        ap (λ o. o.accessed_buckets) (sym k),
      )
      h

module _ (env : Env) {a : BucketAccess} where
  get_all_bucket_claims-Steady :
      (namespace : String) (refs : List BucketClaimAccess)
      → Preserves (Steady a) (get_all_bucket_claims env namespace refs)
  unfolding get_all_bucket_claims get_claim
  get_all_bucket_claims-Steady namespace refs = search steady depth 8

  unmark_claim-Steady :
      (accesses : List BucketAccess) (ignored : String) (e : String × Option BucketClaim)
      (errs : List Error)
      → Preserves (Steady a) (unmark_claim env accesses ignored e errs)
  unfolding unmark_claim
  unmark_claim-Steady accesses ignored (name, none) errs = search steady
  unmark_claim-Steady accesses ignored (name, some claim) errs = search steady depth 8

  module _ (keeps : KeepsAccesses env) where
    finalize-Steady : Preserves (Steady a) (finalize env)
    unfolding finalize unmark_unaccessed_bucket_claims
    finalize-Steady =
        search
          (
            steady,
            get_all_bucket_claims-Steady,
            unmark_claim-Steady,
            update_access-Steady env keeps,
          )
          depth 12

  -- A BucketAccess that meets the requirements is refused before anything is done.
  initialize-Steady : MeetsRequirements a → Preserves (Steady a) (initialize env)
  unfolding initialize already_initialized
  initialize-Steady met = Steady-object λ found k. Preserves-lifted _ _ λ i present.
      Preserves-checked _ λ absent.
        let p = IsKept-MeetsRequirements a found k met in
        let q : i ≡ true = cc in let r = rw q at absent in absurd cc

  pub control_access-Steady :
      KeepsAccesses env → MeetsRequirements a → Preserves (Steady a) (control_access env)
  unfolding control_access reconcile_access
  control_access-Steady keeps met = Preserves-bind Preserves-object λ access.
      Preserves-branch _ (Preserves-pure tt) (
        Preserves-on_error _ (
          Preserves-bind Preserves-object
            λ found. Preserves-branch _ (finalize-Steady keeps) (initialize-Steady met)))
