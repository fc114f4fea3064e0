-- ===== src/ClaimController/Binding.antt =====
-- bucketclaim.go: the pure functions of the reconciler of BucketClaims.
use Prim.Native.String.{◌++◌ as append}
use container_object_storage.Prelude.{
  String, Bool, true, false, ◌&&◌, not, none, List, [], ◌∷◌, ◌++◌, ◌==◌, if◌then◌else◌,
}
use container_object_storage.Errors.{
  Error, errorf, wrapf, text, errors_join, error_if, Result, ok, err,
}
use container_object_storage.Api.Meta.{ObjectMeta}
use container_object_storage.Api.Bucket.{Bucket, BucketClaim, BucketClass, BucketStatus}

unfoldable pub bucket_name_of : BucketClaim → String
bucket_name_of claim =
    if not (claim.spec.existing_bucket_name == "")
    then claim.spec.existing_bucket_name
    else append "bc-" claim.metadata.uid

unfoldable pub determine_bucket_name : BucketClaim → Result String
unfolding bucket_name_of
determine_bucket_name claim =
    let name = bucket_name_of claim in
    let bound = claim.status.bound_bucket_name in
    if name == ""
    then err (errorf "internal error: determined bucket name is empty" [])
    else if not (bound == "") && not (bound == name)
    then err (
        errorf "unrecoverable degradation: boundBucketName %q does not match determined name %q"
          (text bound ∷ text name ∷ []))
    else ok name

abbrev no_metadata : ObjectMeta
no_metadata = record {
  name = "";
  namespace = "";
  uid = "";
  finalizers = [];
  annotations = [];
  deletion_timestamp = none;
  owners = [];
}

abbrev no_status : BucketStatus
no_status = record {
  ready_to_use = none;
  bucket_id = "";
  protocols = [];
  bucket_info = [];
  error = none;
}

unfoldable pub generate_intermediate_bucket : BucketClaim → BucketClass → String → Bucket
generate_intermediate_bucket claim class bucket_name = record {
  metadata = record no_metadata { name = bucket_name };
  spec = record {
    driver_name = class.spec.driver_name;
    deletion_policy = class.spec.deletion_policy;
    parameters = class.spec.parameters;
    protocols = claim.spec.protocols;
    bucket_claim_ref = record {
      name = claim.metadata.name;
      namespace = claim.metadata.namespace;
      uid = claim.metadata.uid;
    };
    existing_bucket_id = "";
  };
  status = no_status;
}

-- `if len(errs) > 0 { return false, fmt.Errorf(format, errors.Join(errs...)) }; return answer, nil`
answer_unless : String → List Error → Bool → Result Bool
answer_unless format [] answer = ok answer
answer_unless format (e ∷ es) answer = err (wrapf format [] (errors_join (e ∷ es)))

unfoldable pub bucket_is_bound_to_claim : Bucket → BucketClaim → Result Bool
unfolding answer_unless
bucket_is_bound_to_claim bucket claim =
    let claim_ref = bucket.spec.bucket_claim_ref in
    let errs =
      error_if (not (claim_ref.namespace == claim.metadata.namespace)) (
        errorf "Bucket claim ref namespace %q does not match BucketClaim namespace %q"
          (text claim_ref.namespace ∷ text claim.metadata.namespace ∷ []))
      ++ error_if (not (claim_ref.name == claim.metadata.name)) (
          errorf "Bucket claim ref name %q does not match BucketClaim name %q"
            (text claim_ref.name ∷ text claim.metadata.name ∷ [])) in
    if claim_ref.uid == ""
    then answer_unless "unbound Bucket does not match BucketClaim: %w" errs false
    else answer_unless "bound Bucket does not match BucketClaim: %w"
        (errs
          ++ error_if (not (claim_ref.uid == claim.metadata.uid)) (
              errorf "Bucket claim ref UID %q does not match BucketClaim UID %q"
                (text claim_ref.uid ∷ text claim.metadata.uid ∷ [])))
        true
