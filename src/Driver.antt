-- ===== src/Driver.antt =====
-- sidecar/pkg/reconciler/driver.go: the paired driver's info, its validation, and the retry scheme
-- of RPC errors. `IsDNS1035Label` of the Kubernetes libraries is the parameter `label_errors`; the
-- client built from the connection is no part of the record.
pub mod Laws
use Prim.Native.Char.{Char, code}
use Prim.Native.String.{String, len}
use container_object_storage.Prelude.{
  ℕ, Bool, true, false, Option, none, some, List, [], ◌∷◌, ◌++◌, ◌==◌, is_empty, nat_eq, nat_lt,
  contains_nat, if◌then◌else◌,
}
use container_object_storage.Errors.{
  Error, errorf, wrapf, Arg, text, number, texts, Result, ok, err,
}
use container_object_storage.Rpc.{unknown_protocol}
use container_object_storage.Runtime.{
  Object, bucket, bucket_claim, bucket_access, other, Runtime, Funcs,
}

pub record DriverInfo : Type 0 where
  pub name : String
  pub supported_protocols : List ℕ

-- The loop over `d.SupportedProtocols`.
unfoldable pub supports_protocol : DriverInfo → ℕ → Bool
unfolding contains_nat
supports_protocol d p = contains_nat d.supported_protocols p

-- strings.Split(n, ".")
prepend : Char → List String → List String
prepend c [] = String.◌∷◌ c String.[] ∷ []
prepend c (l ∷ ls) = String.◌∷◌ c l ∷ ls

unfoldable pub split_labels : String → List String
unfolding prepend
split_labels String.[] = String.[] ∷ []
split_labels (String.◌∷◌ c s) =
    let rest = split_labels s in if nat_eq (code c) b'.' then String.[] ∷ rest else prepend c rest

-- What the messages of `allErrs` print: a length that is too large, and each label that is not valid.
length_errors : ℕ → List Arg
length_errors n = if nat_lt 63 n then number n ∷ [] else []

label_arg : (String → List String) → String → List Arg
label_arg label_errors l =
    if is_empty (label_errors l) then [] else text l ∷ texts (label_errors l) ∷ []

bad_labels : (String → List String) → List String → List Arg
unfolding label_arg
bad_labels label_errors [] = []
bad_labels label_errors (l ∷ ls) = label_arg label_errors l ++ bad_labels label_errors ls

name_error : String → List Arg → Option Error
name_error n [] = none
name_error n (a ∷ as') = some (errorf "driver name %q is invalid: %v" (text n ∷ a ∷ as'))

unfoldable pub validate_driver_name : (String → List String) → String → Option Error
unfolding length_errors bad_labels name_error
validate_driver_name label_errors n =
    name_error n (length_errors (len n) ++ bad_labels label_errors (split_labels n))

-- The loop of `validateAndParseProtocols` over `out` and the keys of `seen`.
parse_protocols : List ℕ → List ℕ → List ℕ → Result (List ℕ)
unfolding contains_nat
parse_protocols [] out seen = ok out
parse_protocols (t ∷ ts) out seen =
    let rest = parse_protocols ts (out ++ t ∷ []) (t ∷ seen) in
    if nat_eq t unknown_protocol
    then err (errorf "object protocol %q is unknown" (number t ∷ []))
    else if contains_nat seen t
    then err (errorf "object protocol" [])
    else rest

unfoldable pub validate_and_parse_protocols : List ℕ → Result (List ℕ)
unfolding parse_protocols
validate_and_parse_protocols [] = err (errorf "at least one object protocol must be supported" [])
validate_and_parse_protocols (t ∷ ts) = parse_protocols (t ∷ ts) [] []

connect : String → Option Error → Result (List ℕ) → Result DriverInfo
connect name (some e) protocols = err (wrapf "driver name is invalid: %w" [] e)
connect name none (err e) = err (wrapf "supported protocols list is invalid: %w" [] e)
connect name none (ok ps) = ok (record { name = name; supported_protocols = ps })

-- The arguments are the fields of the driver's DriverGetInfoResponse.
unfoldable pub validate_and_set_driver_connection_info :
    (String → List String) → String → List ℕ → Result DriverInfo
unfolding connect
validate_and_set_driver_connection_info label_errors name supported_protocols =
    connect name (validate_driver_name label_errors name)
      (validate_and_parse_protocols supported_protocols)

unfoldable pub driver_name_matches : String → Object → Bool
driver_name_matches driver_name (bucket b) = b.spec.driver_name == driver_name
driver_name_matches driver_name (bucket_access a) = a.status.driver_name == driver_name
driver_name_matches driver_name _ = false

unfoldable pub driver_name_matches_predicate : Runtime → String → Funcs
driver_name_matches_predicate r driver_name =
    r.new_predicate_funcs (driver_name_matches driver_name)

-- The status codes of gRPC.
pub data Code : Type 0 where
  ok_code canceled unknown invalid_argument deadline_exceeded not_found already_exists : Code
  permission_denied resource_exhausted failed_precondition aborted out_of_range : Code
  unimplemented internal unavailable data_loss unauthenticated : Code
  unlisted : ℕ → Code

unfoldable pub rpc_error_is_retryable : Code → Bool
rpc_error_is_retryable invalid_argument = false
rpc_error_is_retryable permission_denied = true
rpc_error_is_retryable already_exists = false
rpc_error_is_retryable aborted = true
rpc_error_is_retryable unimplemented = false
rpc_error_is_retryable unauthenticated = true
rpc_error_is_retryable _ = true
