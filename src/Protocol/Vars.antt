-- ===== src/Protocol/Vars.antt =====
-- client/apis/objectstorage/v1alpha2/protocols.go, and the interface of internal/protocol/protocol.go.
use container_object_storage.Prelude.{String, Option, Dict}
use container_object_storage.Errors.{Error}

abbrev pub object_protocol_s3 : String
object_protocol_s3 = "S3"

abbrev pub object_protocol_azure : String
object_protocol_azure = "Azure"

abbrev pub object_protocol_gcs : String
object_protocol_gcs = "GCS"

-- RpcApiTranslator. The argument of `rpc_to_api` and the result of `api_to_rpc` are pointers.
pub record RpcApiTranslator (RpcType : Type 0) : Type 0 where
  pub api_protocol : String
  pub rpc_to_api : Option RpcType → Dict String
  pub api_to_rpc : Dict String → Option RpcType
  -- The second argument is the authentication type.
  pub validate : Dict String → String → Option Error
