-- ===== src/SidecarAccess/Grant.antt =====
-- sidecar/pkg/reconciler/bucketaccess.go: what a granted access is, told by the driver's request and
-- answer, the BucketAccess and the stored Secrets.
pub mod Accepted
pub mod Asked
pub mod Variables
pub mod Served
use container_object_storage.Prelude.{
  ◌≡◌, ◌≢◌, ◌⊎◌, ℕ, All, Exists, String, Dict, dict_get, dict_has, true, Option, none, some, ◌∷◌,
  if◌then◌else◌,
}
use container_object_storage.Errors.{ok}
use container_object_storage.Translator.{ValidationConfig}
use container_object_storage.Translator.Laws.{HasOnly}
use container_object_storage.Protocol.{
  RpcApiTranslator, object_protocol_s3, object_protocol_azure, object_protocol_gcs,
}
use container_object_storage.Protocol.S3.{s3_bucket_info_translator, s3_credential_translator}
use container_object_storage.Protocol.Azure.{
  azure_bucket_info_translator, azure_credential_translator,
}
use container_object_storage.Protocol.Gcs.{gcs_bucket_info_translator, gcs_credential_translator}
use container_object_storage.Api.Access.{
  BucketAccess, BucketClaimAccess, read_only_mode, read_write_mode, write_only_mode,
}
use container_object_storage.Api.Secret.{Secret}
use container_object_storage.Rpc
use container_object_storage.Rpc.{
  DriverGrantBucketAccessRequest, DriverGrantBucketAccessResponse, GrantedBucketInfo,
  GrantAccessedBucket, ObjectProtocolAndBucketInfo, CredentialInfo,
}
use container_object_storage.World.{
  History, driver_grant_bucket_access, update_bucket_access_status, update_secret,
}
use container_object_storage.World.Recorded.{Recorded}
use container_object_storage.World.Accesses.Protection.{IsSameAccess}

-- What the driver's answer is checked against.
abbrev pub expected_of : BucketAccess → ValidationConfig
expected_of a = record {
  expected_protocol = a.spec.protocol;
  authentication_type = a.status.authentication_type;
}

-- Of three parts of an answer there is the one of the expected protocol alone; it is valid, and the
-- variables are those that it gives.
module _ {R S T : Type 0} (r : RpcApiTranslator R) (s : RpcApiTranslator S)
    (t : RpcApiTranslator T) where
  abbrev pub AreVariables : ValidationConfig → Option R → Option S → Option T → Dict String → Type 0
  AreVariables v x y z out =
      ((v.expected_protocol ≡ object_protocol_s3)
        × (y ≡ none)
        × (z ≡ none)
        × HasOnly r v x (λ all. all) out)
      ⊎ (((v.expected_protocol ≡ object_protocol_azure)
            × (x ≡ none)
            × (z ≡ none)
            × HasOnly s v y (λ all. all) out)
          ⊎ ((v.expected_protocol ≡ object_protocol_gcs)
              × (x ≡ none)
              × (y ≡ none)
              × HasOnly t v z (λ all. all) out))

abbrev pub AreCredentials : ValidationConfig → Option CredentialInfo → Dict String → Type 0
AreCredentials v o out =
    (ci : CredentialInfo) × (o ≡ some ci)
    × AreVariables s3_credential_translator azure_credential_translator gcs_credential_translator v
        ci.s3 ci.azure ci.gcs out

abbrev pub IsInfo : ValidationConfig → Option ObjectProtocolAndBucketInfo → Dict String → Type 0
IsInfo v o out =
    (bi : ObjectProtocolAndBucketInfo) × (o ≡ some bi)
    × AreVariables s3_bucket_info_translator azure_bucket_info_translator gcs_bucket_info_translator
        v bi.s3 bi.azure bi.gcs out

-- The numbers of the access modes in a request.
abbrev pub IsMode : String → ℕ → Type 0
IsMode m n =
    ((m ≡ read_only_mode) × (n ≡ Rpc.read_only))
    ⊎ (((m ≡ read_write_mode) × (n ≡ Rpc.read_write))
        ⊎ ((m ≡ write_only_mode) × (n ≡ Rpc.write_only)))

-- The data has the variables of the Bucket, and those of the credentials that the Bucket has not.
abbrev pub HasVariables : Dict String → Dict String → Dict String → Type 0
HasVariables string_data credentials info =
    (k : String)
    → dict_get string_data k ≡ (if dict_has info k then dict_get info k else dict_get credentials k)

module _ (a : BucketAccess) where
  -- The status of the BucketAccess has the Bucket with this ID for the claim of this name.
  abbrev pub IsAccessed : String → String → Type 0
  IsAccessed n id =
      Exists (λ ab. (ab.bucket_claim_name ≡ n) × (ab.bucket_id ≡ id)) a.status.accessed_buckets

  -- The element of the answer has a bucket ID that was asked for, and valid bucket info.
  abbrev pub IsAnswer : DriverGrantBucketAccessRequest → GrantedBucketInfo → Type 0
  IsAnswer q b =
      (b.bucket_id ≢ "")
      × (Exists (λ asked. asked.bucket_id ≡ b.bucket_id) q.buckets
          × ((info : Dict String) × IsInfo (expected_of a) b.bucket_info info))

  -- The Secret was stored with the credentials and with the info that the answer has for the bucket ID.
  abbrev pub IsStored :
      DriverGrantBucketAccessResponse → Dict String → String → History → String → Type 0
  IsStored r credentials id h secret_name =
      Exists
        (λ b.
          (b.bucket_id ≡ id)
          × ((info : Dict String) × IsInfo (expected_of a) b.bucket_info info
              × ((s : Secret) × (s.metadata.name ≡ secret_name)
                  × (HasVariables s.string_data credentials info
                      × ((t : Secret) × Recorded (update_secret s (ok t)) h)))))
        r.buckets

  -- The element of the request is the Bucket of a referenced claim in the mode of the reference, and
  -- the Secret of that reference was stored.
  abbrev pub IsServed :
      DriverGrantBucketAccessResponse → Dict String → History → GrantAccessedBucket → Type 0
  IsServed r credentials h asked =
      Exists
        (λ ref.
          IsAccessed ref.bucket_claim_name asked.bucket_id
          × (IsMode ref.access_mode asked.access_mode
              × IsStored r credentials asked.bucket_id h ref.access_secret_name))
        a.spec.bucket_claims

  -- The request asks for a Bucket of the referenced claim.
  abbrev pub IsAskedFor : DriverGrantBucketAccessRequest → BucketClaimAccess → Type 0
  IsAskedFor q ref = Exists (λ asked. IsAccessed ref.bucket_claim_name asked.bucket_id) q.buckets

  -- The status that was sent is the one of a granted access.
  pub record IsGrantedFrom (h : History) (b : BucketAccess) : Type 0 where
    pub same_access : IsSameAccess a b
    pub is_ready : b.status.ready_to_use ≡ some true
    pub no_error : b.status.error ≡ none
    pub request : DriverGrantBucketAccessRequest
    pub response : DriverGrantBucketAccessResponse
    pub is_granted : Recorded (driver_grant_bucket_access request (ok response)) h
    pub same_account : b.status.account_id ≡ response.account_id
    pub has_account : b.status.account_id ≢ ""
    pub credentials : Dict String
    pub are_credentials : AreCredentials (expected_of a) response.credentials credentials
    pub are_asked_for : All (IsAskedFor request) a.spec.bucket_claims
    pub are_answers : All (IsAnswer request) response.buckets
    pub are_served : All (IsServed response credentials h) request.buckets

  -- The latest call stored the status of a granted access.
  abbrev pub IsGranted : History → Type 0
  IsGranted (update_bucket_access_status b (ok c) ∷ h) = IsGrantedFrom h b
  IsGranted _ = ⊥
