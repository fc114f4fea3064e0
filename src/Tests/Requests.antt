-- ===== src/Tests/Requests.antt =====
-- The Buckets that a grant is asked for.
use container_object_storage.Prelude.{
  ◌≡◌, ◌≤◌, ◌↔◌, refl, [], ◌∷◌, Dict, length, dict_get, dict_set,
}
use container_object_storage.Errors.{ok}
use container_object_storage.Api.Access.{BucketAccess}
use container_object_storage.Translator.{access_mode_to_rpc}
use container_object_storage.SidecarAccess.Config.{
  BucketGrantAccessConfig, bucket_ids_by_claim_name, set_config, add_config, add_configs, generated,
  generate_internal_accessed_bucket_configs, rpc_grant_buckets_list,
}
use container_object_storage.SidecarAccess.Collisions.{
  AreDistinct, ids_of, generate_internal_accessed_bucket_configs-bounds,
}
use container_object_storage.Sample.{sample_access}

-- Two claims whose Buckets have one bucket ID.
abbrev colliding : BucketAccess
colliding = record sample_access {
  spec = record sample_access.spec {
    bucket_claims =
        record { bucket_claim_name = "photos"; access_mode = "ReadWrite"; access_secret_name = "p" }
        ∷ record { bucket_claim_name = "logs"; access_mode = "ReadOnly"; access_secret_name = "l" }
        ∷ [];
  };
  status = record sample_access.status {
    accessed_buckets =
        record { bucket_name = "b1"; bucket_id = "backend-7"; bucket_claim_name = "photos" }
        ∷ record { bucket_name = "b2"; bucket_id = "backend-7"; bucket_claim_name = "logs" }
        ∷ [];
  };
}

abbrev one_config : Dict BucketGrantAccessConfig
one_config = ("backend-7", record { access_mode = 2; access_secret_name = "l" }) ∷ []

collides : generate_internal_accessed_bucket_configs colliding ≡ ok one_config
unfolding generate_internal_accessed_bucket_configs add_configs add_config set_config generated
    bucket_ids_by_claim_name access_mode_to_rpc dict_get dict_set
collides = refl

generate_internal_accessed_bucket_configs-bounds_example :
    (length (rpc_grant_buckets_list one_config) ≤ length colliding.spec.bucket_claims)
    × ((length (rpc_grant_buckets_list one_config) ≡ length colliding.spec.bucket_claims)
        ↔ AreDistinct (
            ids_of
              (bucket_ids_by_claim_name colliding.status.accessed_buckets [])
              colliding.spec.bucket_claims))
generate_internal_accessed_bucket_configs-bounds_example =
    generate_internal_accessed_bucket_configs-bounds colliding one_config collides
