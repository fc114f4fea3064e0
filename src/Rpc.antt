-- ===== src/Rpc.antt =====
-- proto/cosi.pb.go: the messages of the driver's RPC interface. An enum is its wire value, a 32-bit
-- pattern, and a pointer to a message is an `Option`.
use container_object_storage.Prelude.{ℕ, String, Option, List, Dict}

abbrev pub unknown_protocol : ℕ
unknown_protocol = 0

abbrev pub s3_protocol : ℕ
s3_protocol = 1

abbrev pub azure_protocol : ℕ
azure_protocol = 2

abbrev pub gcs_protocol : ℕ
gcs_protocol = 3

abbrev pub unknown_style : ℕ
unknown_style = 0

abbrev pub path_style : ℕ
path_style = 1

abbrev pub virtual_style : ℕ
virtual_style = 2

abbrev pub unknown_authentication : ℕ
unknown_authentication = 0

abbrev pub key : ℕ
key = 1

abbrev pub service_account : ℕ
service_account = 2

abbrev pub unknown_mode : ℕ
unknown_mode = 0

abbrev pub read_write : ℕ
read_write = 1

abbrev pub read_only : ℕ
read_only = 2

abbrev pub write_only : ℕ
write_only = 3

-- S3AddressingStyle has the one field `style`, so its pointer is an optional number.
pub record S3BucketInfo : Type 0 where
  pub bucket_id : String
  pub endpoint : String
  pub region : String
  pub addressing_style : Option ℕ

pub record S3CredentialInfo : Type 0 where
  pub access_key_id : String
  pub access_secret_key : String

pub record AzureBucketInfo : Type 0 where
  pub storage_account : String

pub record AzureCredentialInfo : Type 0 where
  pub access_token : String
  pub expiry_timestamp : String

pub record GcsBucketInfo : Type 0 where
  pub project_id : String
  pub bucket_name : String

pub record GcsCredentialInfo : Type 0 where
  pub access_id : String
  pub access_secret : String
  pub private_key_name : String
  pub service_account : String

pub record ObjectProtocolAndBucketInfo : Type 0 where
  pub s3 : Option S3BucketInfo
  pub azure : Option AzureBucketInfo
  pub gcs : Option GcsBucketInfo

pub record CredentialInfo : Type 0 where
  pub s3 : Option S3CredentialInfo
  pub azure : Option AzureCredentialInfo
  pub gcs : Option GcsCredentialInfo

-- The message ObjectProtocol has the one field `type`, so the pointers to it, none of which is nil in a
-- message that was received, are numbers.
pub record DriverGetInfoResponse : Type 0 where
  pub name : String
  pub supported_protocols : List ℕ

pub record DriverCreateBucketRequest : Type 0 where
  pub name : String
  pub protocols : List ℕ
  pub parameters : Dict String

-- The response of DriverCreateBucket and of DriverGetExistingBucket: both have these two fields.
pub record BucketResponse : Type 0 where
  pub bucket_id : String
  pub protocols : Option ObjectProtocolAndBucketInfo

pub record DriverGetExistingBucketRequest : Type 0 where
  pub existing_bucket_id : String
  pub protocols : List ℕ
  pub parameters : Dict String

-- The nested message AccessMode has the one field `mode`, so its pointer, which is never nil here, is
-- a number.
pub record GrantAccessedBucket : Type 0 where
  pub bucket_id : String
  pub access_mode : ℕ

pub record DriverGrantBucketAccessRequest : Type 0 where
  pub account_name : String
  pub protocol : ℕ
  pub authentication_type : ℕ
  pub service_account_name : String
  pub parameters : Dict String
  pub buckets : List GrantAccessedBucket

pub record GrantedBucketInfo : Type 0 where
  pub bucket_id : String
  pub bucket_info : Option ObjectProtocolAndBucketInfo

pub record DriverGrantBucketAccessResponse : Type 0 where
  pub account_id : String
  pub buckets : List GrantedBucketInfo
  pub credentials : Option CredentialInfo

-- The elements of `buckets` have the one field `bucket_id`.
pub record DriverRevokeBucketAccessRequest : Type 0 where
  pub account_id : String
  pub protocol : ℕ
  pub authentication_type : ℕ
  pub service_account_name : String
  pub parameters : Dict String
  pub buckets : List String
