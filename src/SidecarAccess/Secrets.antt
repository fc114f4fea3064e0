-- ===== src/SidecarAccess/Secrets.antt =====
-- sidecar/pkg/reconciler/bucketaccess.go: the Secrets of a BucketAccess.
use container_object_storage.Prelude.{
  String, Bool, not, Option, none, some, List, [], ◌∷◌, ◌++◌, Dict, dict_get, dict_set, dict_has,
  dict_size, dict_merge, length, nat_eq, if◌then◌else◌,
}
use container_object_storage.Errors.{
  Error, errorf, wrapf, text, non_retryable_error, Result, ok, err, error_of,
}
use container_object_storage.Api.Meta.{protection_finalizer}
use container_object_storage.Api.Access.{BucketAccess, BucketClaimAccess}
use container_object_storage.Api.Secret.{Secret}
use container_object_storage.World.{Env, get_secret, create_secret, update_secret, delete_secret}
use container_object_storage.World.Action.{
  Action, ◌>>=◌, ◌>>◌, pure, fail, lift, try, call, branch, range, check, object, on_error,
}
use container_object_storage.SidecarAccess.Config.{
  Secrets, BucketGrantAccessConfig, InternalGrantAccessConfig,
}
use container_object_storage.SidecarAccess.Granted.{GrantedAccessApiDetails}

-- corev1.SecretTypeOpaque
abbrev pub opaque : String
opaque = "Opaque"

-- `&corev1.Secret{…}` with a namespace and a name.
abbrev pub empty_secret : String → String → Secret
empty_secret namespace name = record {
  metadata = record {
    name = name;
    namespace = namespace;
    uid = "";
    finalizers = [];
    annotations = [];
    deletion_timestamp = none;
    owners = [];
  };
  secret_type = "";
  string_data = [];
}

abbrev pub with_owners : List (String × Bool) → Secret → Secret
with_owners owners s = record s { metadata = record s.metadata { owners = owners } }

abbrev pub with_finalizers : List String → Secret → Secret
with_finalizers fs s = record s { metadata = record s.metadata { finalizers = fs } }

-- The entries of the map are pointers: a Secret in it changes when it is updated.
abbrev pub Reserved : Type 0
Reserved = Secrets × List Error

-- What the loop does with the answer for a Secret.
unfoldable pub collect_secret : String → Result Secret → Reserved → Reserved
collect_secret name (ok s) (secrets, errs) = (dict_set secrets name s, errs)
collect_secret name (err e) (secrets, errs) = (secrets, errs ++ e ∷ [])

missing_secrets : Secrets → List BucketClaimAccess → Option Error
missing_secrets secrets refs =
    if nat_eq (dict_size secrets) (length refs)
    then none
    else some (errorf "did not reserve one or more access Secrets, but no errors observed" [])

-- `data`, filled from the credentials and from the bucket's info, which wins.
abbrev pub granted_data : Dict String → Dict String → Dict String
granted_data credentials info = dict_merge info (dict_merge credentials [])

module _ (env : Env) where
  unfoldable pub set_access_secret_required_metadata : Secret → Secret
  set_access_secret_required_metadata s =
      record (with_finalizers
        (env.runtime.add_finalizer s.metadata.finalizers protection_finalizer).0 s) {
          secret_type = opaque;
        }

  -- r.Update(ctx, secret)
  unfoldable pub send_secret : Secret → Action BucketAccess Secret
  send_secret s = call (update_secret s) (λ h. env.on_update_secret h s)

  unfoldable pub create_new_owned_access_secret : String → BucketAccess → Action BucketAccess Secret
  unfolding set_access_secret_required_metadata
  create_new_owned_access_secret name access =
      let s = empty_secret access.metadata.namespace name in
      do
        owners ← lift (env.runtime.set_controller_reference access.metadata s.metadata.owners)
        let new = set_access_secret_required_metadata (with_owners owners s)
        call (create_secret new) (λ h. env.on_create_secret h new)

  unfoldable pub update_existing_access_secret_metadata :
      Secret → BucketAccess → Action BucketAccess Secret
  unfolding set_access_secret_required_metadata send_secret
  update_existing_access_secret_metadata s access =
      branch (not (env.runtime.is_controlled_by s.metadata.owners access.metadata.uid))
        (fail (
          non_retryable_error (
            errorf "existing access Secret %q does not belong to BucketAccess"
              (text s.metadata.name ∷ []))))
        (send_secret (set_access_secret_required_metadata s))

  -- What follows the read of a Secret.
  unfoldable pub reserve_read : BucketAccess → String → Result Secret → Action BucketAccess Secret
  unfolding create_new_owned_access_secret update_existing_access_secret_metadata
  reserve_read access name (ok s) = update_existing_access_secret_metadata s access
  reserve_read access name (err e) =
      branch (not (env.is_not_found e)) (fail e) (create_new_owned_access_secret name access)

  unfoldable pub reserve_secret :
      BucketAccess → BucketClaimAccess → Reserved → Action BucketAccess Reserved
  unfolding reserve_read collect_secret
  reserve_secret access ref (secrets, errs) =
      let name = ref.access_secret_name in
      branch (dict_has secrets name)
        (pure (
          secrets,
          errs
              ++ non_retryable_error (
                  errorf "multiple referenced BucketClaims use the same accessSecretName %q"
                    (text name ∷ []))
                ∷ [],
        ))
        do
          got ← try (
              call (get_secret access.metadata.namespace name)
                (λ h. env.on_get_secret h access.metadata.namespace name))
          reserved ← try (reserve_read access name got)
          pure (collect_secret name reserved (secrets, errs))

  unfoldable pub reserve_access_secrets : Action BucketAccess Secrets
  unfolding reserve_secret missing_secrets
  reserve_access_secrets = do
    access ← object
    acc ← range (reserve_secret access) access.spec.bucket_claims ([], [])
    check (error_of "failed to reserve one or more Secrets for access info: %w" acc.1)
    check (missing_secrets acc.0 access.spec.bucket_claims)
    pure acc.0

  -- The Secret in the map is changed in place: it is what the server stored, or what was sent.
  unfoldable pub collect_updated : String → Secret → Result Secret → Reserved → Reserved
  collect_updated name sent (ok s) (secrets, errs) = (dict_set secrets name s, errs)
  collect_updated name sent (err e) (secrets, errs) = (
    dict_set secrets name sent,
    errs
        ++ errorf "failed to update BucketAccess Secret %q with bucket and credential info"
            (text sent.metadata.name ∷ [])
          ∷ [],
  )

  unfoldable pub update_named_secret :
      Dict String → String → Option Secret → Reserved → Action BucketAccess Reserved
  unfolding collect_updated send_secret
  update_named_secret entries name none (secrets, errs) = pure (
    secrets,
    errs
        ++ non_retryable_error
            (errorf "failed internal lookup for Secret with name %q" (text name ∷ []))
          ∷ [],
  )
  update_named_secret entries name (some s) (secrets, errs) =
      let sent : Secret = record s { string_data = entries } in
      do r ← try (send_secret sent); pure (collect_updated name sent r (secrets, errs))

  unfoldable pub update_configured_secret :
      Dict String
      → String
      → Option BucketGrantAccessConfig
      → Reserved
      → Action BucketAccess Reserved
  unfolding update_named_secret
  update_configured_secret entries id none (secrets, errs) =
      pure
        (secrets, errs ++ non_retryable_error (errorf "unknown bucket ID %q" (text id ∷ [])) ∷ [])
  update_configured_secret entries id (some cfg) (secrets, errs) =
      update_named_secret entries cfg.access_secret_name (dict_get secrets cfg.access_secret_name)
        (secrets, errs)

  unfoldable pub update_secret_for :
      InternalGrantAccessConfig
      → GrantedAccessApiDetails
      → String × Dict String
      → Reserved
      → Action BucketAccess Reserved
  unfolding update_configured_secret
  update_secret_for cfg details (id, info) acc =
      update_configured_secret (granted_data details.shared_credential_info info) id
        (dict_get cfg.access_configs_by_bucket_id id) acc

  unfoldable pub update_secrets_with_granted_info :
      InternalGrantAccessConfig → GrantedAccessApiDetails → Action BucketAccess (Unit {0})
  unfolding update_secret_for
  update_secrets_with_granted_info cfg details = do
    acc ←
        range (update_secret_for cfg details) details.bucket_info_by_bucket_id
          (cfg.secrets_by_name, [])
    check (error_of "failed to update one or more BucketAccess Secrets: %w" acc.1)

  -- The update without the finalizer, and the deletion.
  unfoldable pub delete_found_secret : Secret → Action BucketAccess (Unit {0})
  unfolding send_secret
  delete_found_secret s =
      let released =
        with_finalizers (env.runtime.remove_finalizer s.metadata.finalizers protection_finalizer)
          s in
      do
        stored ←
            on_error (wrapf "failed to remove protection finalizer from access Secret: %w" [])
              (send_secret released)
        call (delete_secret stored) (λ h. env.on_delete_secret h stored)

  unfoldable pub collect_deleted : Result (Unit {0}) → List Error → List Error
  collect_deleted (ok u) errs = errs
  collect_deleted (err e) errs = errs ++ e ∷ []

  unfoldable pub delete_read :
      BucketAccess → Result Secret → List Error → Action BucketAccess (List Error)
  unfolding delete_found_secret collect_deleted
  delete_read access (err e) errs = pure (if env.is_not_found e then errs else errs ++ e ∷ [])
  delete_read access (ok s) errs =
      branch (not (env.runtime.is_controlled_by s.metadata.owners access.metadata.uid)) (pure errs)
        do r ← try (delete_found_secret s); pure (collect_deleted r errs)

  unfoldable pub delete_secret_of :
      BucketAccess → BucketClaimAccess → List Error → Action BucketAccess (List Error)
  unfolding delete_read
  delete_secret_of access ref errs = do
    got ← try (
        call (get_secret access.metadata.namespace ref.access_secret_name)
          (λ h. env.on_get_secret h access.metadata.namespace ref.access_secret_name))
    delete_read access got errs

  unfoldable pub delete_owned_access_secrets : Action BucketAccess (Unit {0})
  unfolding delete_secret_of
  delete_owned_access_secrets = do
    access ← object
    errs ← range (delete_secret_of access) access.spec.bucket_claims []
    check (error_of "failed to ensure deletion of one or more access Secrets: %w" errs)
