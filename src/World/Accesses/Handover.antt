-- ===== src/World/Accesses/Handover.antt =====
-- What the Controller hands over to the Sidecar in a BucketAccess, and the requests to the driver that
-- sidecar/pkg/reconciler/bucketaccess.go makes of it.
use container_object_storage.Prelude.{
  ℕ, ◌≡◌, String, true, List, [], ◌∷◌, Dict, All, contains, nat_eq, if◌then◌else◌,
}
use container_object_storage.Errors.{ok}
use container_object_storage.Api.Access.{BucketAccess, BucketAccessSpec, AccessedBucket}
use container_object_storage.Rpc
use container_object_storage.Rpc.{DriverGrantBucketAccessRequest, DriverRevokeBucketAccessRequest}
use container_object_storage.Protocol.{api_to_rpc}
use container_object_storage.Translator.{authentication_type_to_rpc}

-- The identity and the spec of a BucketAccess, and the fields of its status that the Controller sets for
-- the Sidecar.
pub record Handover : Type 0 where
  pub namespace : String
  pub name : String
  pub uid : String
  pub spec : BucketAccessSpec
  pub driver_name : String
  pub authentication_type : String
  pub parameters : Dict String
  pub accessed_buckets : List AccessedBucket

abbrev pub handover : BucketAccess → Handover
handover a = record {
  namespace = a.metadata.namespace;
  name = a.metadata.name;
  uid = a.metadata.uid;
  spec = a.spec;
  driver_name = a.status.driver_name;
  authentication_type = a.status.authentication_type;
  parameters = a.status.parameters;
  accessed_buckets = a.status.accessed_buckets;
}

abbrev pub bucket_ids : List AccessedBucket → List String
bucket_ids [] = []
bucket_ids (ab ∷ abs) = ab.bucket_id ∷ bucket_ids abs

module _ (h : Handover) where
  -- The fields that both requests have.
  pub record IsShared (protocol authentication_type : ℕ) (service_account_name : String)
      (parameters : Dict String) : Type 0 where
    pub is_protocol : api_to_rpc h.spec.protocol ≡ ok protocol
    pub is_authentication :
        authentication_type_to_rpc h.authentication_type ≡ ok authentication_type
    pub is_service_account : service_account_name ≡ (
        if nat_eq authentication_type Rpc.service_account then h.spec.service_account_name else "")
    pub are_parameters : parameters ≡ h.parameters

  -- Access is asked for only to the Buckets that were handed over.
  pub record IsGrantFor (q : DriverGrantBucketAccessRequest) : Type 0 where
    pub is_shared : IsShared q.protocol q.authentication_type q.service_account_name q.parameters
    pub are_accessed :
        All (λ b. contains (bucket_ids h.accessed_buckets) b.bucket_id ≡ true) q.buckets

  -- Access is revoked to all the Buckets that were handed over.
  pub record IsRevocationFor (q : DriverRevokeBucketAccessRequest) : Type 0 where
    pub is_shared : IsShared q.protocol q.authentication_type q.service_account_name q.parameters
    pub are_all : q.buckets ≡ bucket_ids h.accessed_buckets
