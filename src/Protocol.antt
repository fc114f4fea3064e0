-- ===== src/Protocol.antt =====
-- internal/protocol: the translation of object protocols, and of each protocol's bucket info and
-- credentials, between the driver's RPC types and the variables of the Kubernetes API. A variable is
-- the text of its name, and the nil map is the empty one.
mod Vars
pub mod S3
pub mod Azure
pub mod Gcs
pub mod Laws
pub use Vars.*
use container_object_storage.Prelude.{
  ℕ, String, Option, none, some, List, [], ◌∷◌, ◌==◌, Dict, nat_eq, if◌then◌else◌,
}
use container_object_storage.Errors.{Error, errorf, text, number, Result, ok, err}
use container_object_storage.Rpc.{s3_protocol, azure_protocol, gcs_protocol}

-- The entries of `objectProtocolProtoApiMapping`.
abbrev object_protocol_mapping : List (ℕ × String)
object_protocol_mapping =
    (s3_protocol, object_protocol_s3)
    ∷ (azure_protocol, object_protocol_azure)
    ∷ (gcs_protocol, object_protocol_gcs)
    ∷ []

lookup_rpc : List (ℕ × String) → ℕ → Result String
lookup_rpc [] p = err (errorf "unknown driver protocol %q" (number p ∷ []))
lookup_rpc ((q, a) ∷ m) p = if nat_eq q p then ok a else lookup_rpc m p

lookup_api : List (ℕ × String) → String → Result ℕ
lookup_api [] a = err (errorf "unknown api protocol %q" (text a ∷ []))
lookup_api ((p, b) ∷ m) a = if b == a then ok p else lookup_api m a

unfoldable pub rpc_to_api : ℕ → Result String
unfolding lookup_rpc
rpc_to_api p = lookup_rpc object_protocol_mapping p

-- The values of the mapping are all different, so the order of the loop does not matter.
unfoldable pub api_to_rpc : String → Result ℕ
unfolding lookup_api
api_to_rpc a = lookup_api object_protocol_mapping a
