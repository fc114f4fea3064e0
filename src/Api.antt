-- ===== src/Api.antt =====
-- client/apis/objectstorage/v1alpha2: the Kubernetes resources of the API. A string type of the
-- source (`ObjectProtocol`, `BucketDeletionPolicy` and the like) is a text here, its constants are
-- named below, and a pointer is an `Option`.
pub mod Meta
pub mod Bucket
pub mod Access
pub mod Secret
