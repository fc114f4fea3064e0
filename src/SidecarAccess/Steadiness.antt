-- ===== src/SidecarAccess/Steadiness.antt =====
-- sidecar/pkg/reconciler/bucketaccess.go: `reconcile` leaves what the Controller handed over as it is.
use container_object_storage.Prelude.{String, Option, none, some, List, [], Dict}
use container_object_storage.Errors.{wrapf, Error, Result, ok, err}
use container_object_storage.Api.Access.{BucketAccess}
use container_object_storage.Api.Secret.{Secret}
use container_object_storage.Driver.{DriverInfo}
use container_object_storage.World.{Env}
use container_object_storage.World.Action.{◌>>=◌, object, lift, on_error}
use container_object_storage.World.Ensures.Invariant.{
  Preserves, Preserves-lifted, Preserves-on_error,
}
use container_object_storage.World.Accesses.Protection.{KeepsAccesses}
use container_object_storage.World.Accesses.Steady.{
  Steady, steady, Steady-object, Steady-call, update_access-Steady, update_access_status-Steady,
  protect_access-Steady,
}
use container_object_storage.World.Accesses.Handover.{handover, IsGrantFor}
use container_object_storage.SidecarAccess.Requests.{
  grant_request-IsGrantFor, revoke_request-IsRevocationFor,
}
use container_object_storage.SidecarAccess.Buckets.{
  get_and_validate_bucket, get_and_validate_all_accessed_buckets,
}
use container_object_storage.SidecarAccess.Secrets.{
  reserve_access_secrets, reserve_secret, reserve_read, create_new_owned_access_secret,
  update_existing_access_secret_metadata, send_secret, update_named_secret,
  update_configured_secret, update_secret_for, update_secrets_with_granted_info,
  delete_found_secret, delete_read, delete_secret_of, delete_owned_access_secrets,
}
use container_object_storage.SidecarAccess.{
  grant_request, driver_grant_access, grant, provision_access, driver_revoke_access,
  reconcile_delete, reconcile_access, manage_access,
}
use container_object_storage.SidecarAccess.Config.{
  Secrets, BucketGrantAccessConfig, InternalGrantAccessConfig, new_internal_grant_access_config,
}
use container_object_storage.SidecarAccess.Granted.{GrantedAccessApiDetails}
use container_object_storage.SidecarAccess.Secrets.{Reserved}

module _ (env : Env) {a : BucketAccess} where
  get_and_validate_all_accessed_buckets-Steady :
      Preserves (Steady a) (get_and_validate_all_accessed_buckets env)
  unfolding get_and_validate_all_accessed_buckets get_and_validate_bucket
  get_and_validate_all_accessed_buckets-Steady = search steady depth 8

  reserve_read-Steady :
      (access : BucketAccess) (name : String) (r : Result Secret)
      → Preserves (Steady a) (reserve_read env access name r)
  unfolding reserve_read create_new_owned_access_secret update_existing_access_secret_metadata
      send_secret
  reserve_read-Steady access name (ok s) = search steady
  reserve_read-Steady access name (err e) = search steady depth 8

  reserve_access_secrets-Steady : Preserves (Steady a) (reserve_access_secrets env)
  unfolding reserve_access_secrets reserve_secret
  reserve_access_secrets-Steady = search (steady, reserve_read-Steady) depth 10

  update_named_secret-Steady :
      (entries : Dict String) (name : String) (o : Option Secret) (acc : Reserved)
      → Preserves (Steady a) (update_named_secret env entries name o acc)
  unfolding update_named_secret send_secret
  update_named_secret-Steady entries name none acc = search steady
  update_named_secret-Steady entries name (some s) acc = search steady

  update_configured_secret-Steady :
      (entries : Dict String) (id : String) (o : Option BucketGrantAccessConfig) (acc : Reserved)
      → Preserves (Steady a) (update_configured_secret env entries id o acc)
  unfolding update_configured_secret
  update_configured_secret-Steady entries id none acc = search steady
  update_configured_secret-Steady entries id (some cfg) acc = update_named_secret-Steady _ _ _ _

  update_secrets_with_granted_info-Steady :
      (cfg : InternalGrantAccessConfig) (details : GrantedAccessApiDetails)
      → Preserves (Steady a) (update_secrets_with_granted_info env cfg details)
  unfolding update_secrets_with_granted_info update_secret_for
  update_secrets_with_granted_info-Steady cfg details =
      search (steady, update_configured_secret-Steady)

  delete_read-Steady :
      (access : BucketAccess) (r : Result Secret) (errs : List Error)
      → Preserves (Steady a) (delete_read env access r errs)
  unfolding delete_read delete_found_secret send_secret
  delete_read-Steady access (ok s) errs = search steady depth 9
  delete_read-Steady access (err e) errs = search steady

  delete_owned_access_secrets-Steady : Preserves (Steady a) (delete_owned_access_secrets env)
  unfolding delete_owned_access_secrets delete_secret_of
  delete_owned_access_secrets-Steady = search (steady, delete_read-Steady) depth 8

  -- The driver is called to revoke the access that was handed over.
  driver_revoke_access-Steady : Preserves (Steady a) (driver_revoke_access env)
  unfolding driver_revoke_access
  driver_revoke_access-Steady = Steady-object λ b k. Preserves-lifted _ _ λ cfg e.
      Preserves-on_error _ (Steady-call _ _ (λ r. rw k (revoke_request-IsRevocationFor b b cfg e)))

  -- The driver is called to grant the access that was handed over.
  driver_grant_access-Steady :
      (cfg : InternalGrantAccessConfig)
      → IsGrantFor (handover a) (grant_request cfg)
      → Preserves (Steady a) (driver_grant_access env cfg)
  unfolding driver_grant_access
  driver_grant_access-Steady cfg g = Preserves-on_error _ (Steady-call _ _ (λ r. g))

  module _ (keeps : KeepsAccesses env) where
    reconcile_delete-Steady : Preserves (Steady a) (reconcile_delete env)
    unfolding reconcile_delete
    reconcile_delete-Steady =
        search
          (
            steady,
            delete_owned_access_secrets-Steady,
            driver_revoke_access-Steady,
            update_access-Steady env keeps,
            update_access_status-Steady env keeps,
          )
          depth 12

    grant-Steady :
        (cfg : InternalGrantAccessConfig)
        → Preserves (Steady a) (driver_grant_access env cfg)
        → Preserves (Steady a) (grant env cfg)
    unfolding grant
    grant-Steady cfg k =
        search
          (steady, update_secrets_with_granted_info-Steady, update_access_status-Steady env keeps)
          depth 12

    -- From the second reading of the object on.
    configured-Steady :
        (secrets : Secrets)
        → Preserves (Steady a) (
            object >>= (λ access.
              on_error
                (wrapf "failed to build internal representation of grant-access configuration: %w"
                  [])
                (lift (new_internal_grant_access_config access secrets))
              >>= grant env))
    configured-Steady secrets = Steady-object λ b k. Preserves-lifted _ _ λ cfg e.
        grant-Steady cfg
          (driver_grant_access-Steady cfg (rw k (grant_request-IsGrantFor b secrets cfg e)))

    provision_access-Steady : Preserves (Steady a) (provision_access env)
    unfolding provision_access
    provision_access-Steady =
        search
          (
            steady,
            protect_access-Steady env keeps,
            get_and_validate_all_accessed_buckets-Steady,
            reserve_access_secrets-Steady,
            configured-Steady,
          )
          depth 12

    pub manage_access-Steady : (info : DriverInfo) → Preserves (Steady a) (manage_access env info)
    unfolding manage_access reconcile_access
    manage_access-Steady info =
        search (steady, reconcile_delete-Steady, provision_access-Steady) depth 8
