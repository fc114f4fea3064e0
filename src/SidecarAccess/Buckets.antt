-- ===== src/SidecarAccess/Buckets.antt =====
-- sidecar/pkg/reconciler/bucketaccess.go: the Buckets in the status of a BucketAccess.
use container_object_storage.Prelude.{
  String, not, Option, none, some, List, [], ◌∷◌, ◌++◌, ◌==◌, if◌then◌else◌,
}
use container_object_storage.Errors.{
  Error, errorf, text, non_retryable_error, Result, ok, err, error_of, error_if,
}
use container_object_storage.Api.Meta.{
  bucket_claim_being_deleted_annotation, has_annotation, is_deleting,
}
use container_object_storage.Api.Bucket.{Bucket}
use container_object_storage.Api.Access.{BucketAccess, AccessedBucket}
use container_object_storage.World.{Env, get_bucket}
use container_object_storage.World.Action.{Action, ◌>>=◌, pure, try, call, range, check, object}

unfoldable pub validate_bucket_is_ready_for_access : Bucket → String → Option Error
validate_bucket_is_ready_for_access b expected =
    error_of "cannot generate access for one or more Buckets: %w" (
      error_if (has_annotation bucket_claim_being_deleted_annotation b.metadata)
        (errorf "BucketClaim for Bucket %q is deleting" (text b.metadata.name ∷ []))
      ++ (error_if (is_deleting b.metadata)
            (errorf "Bucket %q is deleting" (text b.metadata.name ∷ []))
          ++ (error_if (b.status.bucket_id == "")
                (errorf "Bucket %q has no bucketID" (text b.metadata.name ∷ []))
              ++ error_if (not (b.status.bucket_id == expected)) (
                  errorf "Bucket %q ID %q does not match expected ID %q"
                    (text b.metadata.name ∷ text b.status.bucket_id ∷ text expected ∷ [])))))

unready : Option Error → List Error → List Error
unready none errs = errs
unready (some e) errs = errs ++ non_retryable_error e ∷ []

module _ (env : Env) where
  -- What the loop does with an answer.
  unfoldable pub collect_bucket_error : AccessedBucket → Result Bucket → List Error → List Error
  unfolding unready
  collect_bucket_error ab (ok bkt) errs =
      unready (validate_bucket_is_ready_for_access bkt ab.bucket_id) errs
  collect_bucket_error ab (err e) errs =
      errs ++ (if env.is_not_found e then non_retryable_error e else e) ∷ []

  unfoldable pub get_and_validate_bucket :
      AccessedBucket → List Error → Action BucketAccess (List Error)
  get_and_validate_bucket ab errs = do
    got ← try (call (get_bucket ab.bucket_name) (λ h. env.on_get_bucket h ab.bucket_name))
    pure (collect_bucket_error ab got errs)

  unfoldable pub get_and_validate_all_accessed_buckets : Action BucketAccess (Unit {0})
  get_and_validate_all_accessed_buckets = do
    access ← object
    errs ← range get_and_validate_bucket access.status.accessed_buckets []
    check (error_of "failed to get accessed Buckets: %w" errs)
