-- ===== src/AccessController/Lookup.antt =====
-- bucketaccess.go of the Controller: the Buckets of the claims that a BucketAccess references, and
-- whether access to them can be provisioned.
use container_object_storage.Prelude.{
  String, Bool, true, false, not, ◌&&◌, Option, none, some, List, [], ◌∷◌, ◌++◌, ◌==◌, Dict,
  dict_get, dict_set, dict_size, nat_eq, is_empty, contains, deref, if◌then◌else◌,
}
use container_object_storage.Errors.{
  Error, Arg, errorf, wrapf, text, texts, message, non_retryable_error, Result, ok, err, error_of,
}
use container_object_storage.Api.Meta.{is_deleting}
use container_object_storage.Api.Bucket.{Bucket, BucketClaim}
use container_object_storage.Api.Access.{
  BucketAccess, BucketClaimAccess, BucketAccessSpec, AccessedBucket,
}
use container_object_storage.World.{Env, get_bucket}
use container_object_storage.World.Action.{
  Action, ◌>>=◌, ◌>>◌, pure, try, call, branch, range, check,
}
use container_object_storage.AccessController.Marks.{Claims}

-- `map[string]*cosiapi.Bucket`
abbrev pub Buckets : Type 0
Buckets = Dict (Option Bucket)

module _ (env : Env) where
  unfoldable pub collect_bucket :
      String → String → Result Bucket → Buckets × List Error → Buckets × List Error
  collect_bucket claim_name bucket_name (ok bucket) (buckets, errs) =
      (dict_set buckets claim_name (some bucket), errs)
  collect_bucket claim_name bucket_name (err e) (buckets, errs) = (
    buckets,
    errs
        ++ (if env.is_not_found e
            then non_retryable_error (
                wrapf "unrecoverable degradation: Bucket %q for BucketClaim %q has gone missing: %w"
                  (text bucket_name ∷ text claim_name ∷ []) e)
            else e)
          ∷ [],
  )

  unfoldable pub get_bucket_for_claim :
      String × Option BucketClaim
      → Buckets × List Error
      → Action BucketAccess (Buckets × List Error)
  get_bucket_for_claim (claim_name, none) (buckets, errs) =
      pure (dict_set buckets claim_name none, errs)
  get_bucket_for_claim (claim_name, some claim) (buckets, errs) =
      let bucket_name = claim.status.bound_bucket_name in
      branch (bucket_name == "") (pure (dict_set buckets claim_name none, errs)) do
        got ← try (call (get_bucket bucket_name) (λ h. env.on_get_bucket h bucket_name))
        pure (collect_bucket claim_name bucket_name got (buckets, errs))

  unfoldable pub missing_bucket : Buckets → Claims → Option Error
  missing_bucket buckets claims =
      if nat_eq (dict_size buckets) (dict_size claims)
      then none
      else some (errorf "did not get one or more Buckets, but no errors observed" [])

  unfoldable pub get_buckets_for_claims : Claims → Action BucketAccess Buckets
  get_buckets_for_claims claims = do
    acc ← range get_bucket_for_claim claims ([], [])
    check (error_of "could not get one or more Buckets: %w" acc.1)
    check (missing_bucket acc.0 claims)
    pure acc.0

-- `if failed { messages = append(messages, m) }`
unfoldable pub message_if : Bool → Arg → List Arg
message_if true m = m ∷ []
message_if false m = []

unfoldable pub blockers_of : String → BucketAccessSpec → Option BucketClaim → List Arg
unfolding message_if
blockers_of name spec none = []
blockers_of name spec (some claim) =
    message_if (is_deleting claim.metadata)
      (message "stuck: data integrity for deleting BucketClaim %q is not guaranteed" (name ∷ []))
    ++ message_if
        (not (is_empty claim.status.protocols)
          && not (contains claim.status.protocols spec.protocol))
        (message "BucketClaim %q does not support protocol %q" (name ∷ spec.protocol ∷ []))

unfoldable pub cannot_access_bucket_claims : Claims → BucketAccessSpec → List Arg
unfolding blockers_of
cannot_access_bucket_claims [] spec = []
cannot_access_bucket_claims ((name, claim) ∷ claims) spec =
    blockers_of name spec claim ++ cannot_access_bucket_claims claims spec

-- The message for a claim that is bound, with what `bucketsByClaimName` has for it.
unfoldable pub wait_for_bucket : String → BucketClaim → Option (Option Bucket) → List Arg
wait_for_bucket name claim none =
    message "internal error: missing Bucket %q for BucketClaim %q"
      (claim.status.bound_bucket_name ∷ name ∷ [])
    ∷ []
wait_for_bucket name claim (some none) =
    message "waiting for Bucket %q for BucketClaim %q to exist"
      (claim.status.bound_bucket_name ∷ name ∷ [])
    ∷ []
wait_for_bucket name claim (some (some bucket)) =
    if bucket.status.bucket_id == ""
    then message "waiting for Bucket %q for BucketClaim %q to finish provisioning"
        (claim.status.bound_bucket_name ∷ name ∷ [])
      ∷ []
    else if not (deref claim.status.ready_to_use false)
    then message "waiting for BucketClaim %q to finish provisioning Bucket %q"
        (name ∷ claim.status.bound_bucket_name ∷ [])
      ∷ []
    else []

unfoldable pub wait_for_claim : String → Buckets → Option BucketClaim → List Arg
unfolding wait_for_bucket
wait_for_claim name buckets none = message "waiting for BucketClaim %q to exist" (name ∷ []) ∷ []
wait_for_claim name buckets (some claim) =
    if claim.status.bound_bucket_name == ""
    then message "waiting for BucketClaim %q to be bound to a Bucket" (name ∷ []) ∷ []
    else wait_for_bucket name claim (dict_get buckets name)

unfoldable pub waiting_on_bucket_claims : Claims → Buckets → List Arg
unfolding wait_for_claim
waiting_on_bucket_claims [] buckets = []
waiting_on_bucket_claims ((name, claim) ∷ claims) buckets =
    wait_for_claim name buckets claim ++ waiting_on_bucket_claims claims buckets

abbrev pub accessed_bucket : BucketClaimAccess → Bucket → AccessedBucket
accessed_bucket ref bucket = record {
  bucket_name = bucket.metadata.name;
  bucket_id = bucket.status.bucket_id;
  bucket_claim_name = ref.bucket_claim_name;
}

-- The loop returns at the first claim with no Bucket, and collects the claims whose Bucket has no ID.
-- The list that it fills by index is built by appending: the entries of the claims with no ID, which
-- stay empty, are left out, since the list is dropped where there is one.
unfoldable pub compile_bucket :
    BucketClaimAccess
    → Option (Option Bucket)
    → List AccessedBucket × List String
    → Result (List AccessedBucket × List String)
compile_bucket ref (some (some bucket)) (out, missing) =
    if bucket.status.bucket_id == ""
    then ok (out, missing ++ ref.bucket_claim_name ∷ [])
    else ok (out ++ accessed_bucket ref bucket ∷ [], missing)
compile_bucket ref _ acc =
    err
      (errorf "internal error: missing Bucket for BucketClaim %q" (text ref.bucket_claim_name ∷ []))

unfoldable pub and_then :
    (List AccessedBucket × List String → Result (List AccessedBucket × List String))
    → Result (List AccessedBucket × List String)
    → Result (List AccessedBucket × List String)
and_then f (ok acc) = f acc
and_then f (err e) = err e

unfoldable pub compile_buckets :
    List BucketClaimAccess
    → Buckets
    → List AccessedBucket × List String
    → Result (List AccessedBucket × List String)
unfolding compile_bucket and_then
compile_buckets [] buckets acc = ok acc
compile_buckets (ref ∷ refs) buckets acc =
    and_then (compile_buckets refs buckets)
      (compile_bucket ref (dict_get buckets ref.bucket_claim_name) acc)

unfoldable pub compiled : Result (List AccessedBucket × List String) → Result (List AccessedBucket)
compiled (err e) = err e
compiled (ok (out, [])) = ok out
compiled (ok (out, m ∷ ms)) =
    err (errorf "one or more Buckets are missing IDs: %v" (texts (m ∷ ms) ∷ []))

unfoldable pub compile_accessed_buckets :
    List BucketClaimAccess → Buckets → Result (List AccessedBucket)
unfolding compile_buckets compiled
compile_accessed_buckets refs buckets = compiled (compile_buckets refs buckets ([], []))
