-- ===== src/Connection.antt =====
-- sidecar/cmd/rpc.go: how the Sidecar connects to its driver and gets the driver's info, and which
-- endpoint sidecar/cmd/main.go takes. The gRPC library and the driver are the parameter `Grpc`. The
-- loop that waits for the connection runs on fuel.
pub mod Waiting
pub mod Laws
use Prim.Native.String.{len, slice}
use Prim.Native.Nat.{◌-◌}
use container_object_storage.Prelude.{
  ℕ, zero, suc, String, Bool, true, false, not, Option, none, some, List, [], ◌∷◌, ◌==◌,
  starts_with, if◌then◌else◌, deref,
}
use container_object_storage.Errors.{Error, errorf, wrapf, text, Result, ok, err}
use container_object_storage.Rpc.{DriverGetInfoResponse}
use mathlib.Core.Option
use container_object_storage.World.Action.{map_error}
use container_object_storage.Driver.{DriverInfo, validate_and_set_driver_connection_info}

-- connectivity.State
pub data Connectivity : Type 0 where
  idle connecting ready transient_failure shutdown : Connectivity

pub record Grpc : Type 0 where
  -- grpc.NewClient, with the state of the new connection.
  pub new_client : String → Result Connectivity
  -- What the n-th `WaitForStateChange` answers when it is called with a state: nothing when the context
  -- ended first, else the state that `GetState` then reads.
  pub wait_for_state_change : ℕ → Connectivity → Option Connectivity
  -- The identity client's DriverGetInfo.
  pub driver_get_info : Result DriverGetInfoResponse
  -- What an error prints of a state.
  pub state_text : Connectivity → String
  -- validation.IsDNS1035Label
  pub label_errors : String → List String

-- RpcEndpointDefault
abbrev pub rpc_endpoint_default : String
rpc_endpoint_default = "unix:///var/lib/cosi/cosi.sock"

-- The endpoint, from what `os.LookupEnv` finds.
unfoldable pub rpc_endpoint : Option String → String
rpc_endpoint found = deref found rpc_endpoint_default

-- strings.HasSuffix
abbrev pub ends_with : String → String → Bool
ends_with s t = slice s (len s - len t) (len s) == t

abbrev pub timed_out : Error
timed_out = errorf "timed out waiting for RPC client to connect" []

unfoldable pub is_ready : Connectivity → Bool
is_ready ready = true
is_ready _ = false

unfoldable pub is_idle : Connectivity → Bool
is_idle idle = true
is_idle _ = false

-- What one round of the loop does with what its wait answers, and `k` the rounds that follow.
unfoldable pub after_wait :
    Option Connectivity → (Connectivity → Option (Result (Unit {0}))) → Option (Result (Unit {0}))
unfolding is_ready
after_wait none k = some (err timed_out)
after_wait (some s) k = if is_ready s then some (ok tt) else k s

abbrev pub not_idle : String → Error
not_idle s = errorf "gRPC client is not idle: %v" (text s ∷ [])

abbrev pub not_a_unix_socket : String → Error
not_a_unix_socket endpoint =
    errorf "rpc endpoint must be a unix socket prefix 'unix://': %s" (text endpoint ∷ [])

abbrev pub no_sock_extension : String → Error
no_sock_extension endpoint =
    errorf "rpc endpoint must be a unix socket with extension '.sock': %s" (text endpoint ∷ [])

module _ (g : Grpc) where
  -- The loop of `connectRpc` from its n-th round on, with the state that was read last.
  unfoldable pub wait_until_ready : ℕ → ℕ → Connectivity → Option (Result (Unit {0}))
  unfolding after_wait
  wait_until_ready zero n s = none
  wait_until_ready (suc fuel) n s =
      after_wait (g.wait_for_state_change n s) (λ t. wait_until_ready fuel (suc n) t)

  -- `connectRpc` from the answer of `grpc.NewClient` on. `Connect` only starts the attempts, whose effect is
  -- in the answers of the waits.
  unfoldable pub connect_client : ℕ → Result Connectivity → Option (Result (Unit {0}))
  unfolding is_idle wait_until_ready
  connect_client fuel (err e) = some (err (wrapf "unable to create gRPC client: %w" [] e))
  connect_client fuel (ok s) =
      if is_idle s then wait_until_ready fuel 0 s else some (err (not_idle (g.state_text s)))

  unfoldable pub connect_rpc : ℕ → String → Option (Result (Unit {0}))
  unfolding connect_client
  connect_rpc fuel endpoint = connect_client fuel (g.new_client endpoint)

  -- What follows the connection in `connectRpcAndGetDriverInfo`.
  unfoldable pub validate_response : Result DriverGetInfoResponse → Result DriverInfo
  validate_response (err e) = err (wrapf "unable to get driver info: %w" [] e)
  validate_response (ok r) =
      map_error (wrapf "driver info is invalid: %w" [])
        (validate_and_set_driver_connection_info g.label_errors r.name r.supported_protocols)

  unfoldable pub get_driver_info : String → Result (Unit {0}) → Result DriverInfo
  unfolding validate_response
  get_driver_info endpoint (err e) =
      err (wrapf "unable to connect to RPC endpoint %q: %w" (text endpoint ∷ []) e)
  get_driver_info endpoint (ok u) = validate_response g.driver_get_info

  unfoldable pub connect_rpc_and_get_driver_info : ℕ → String → Option (Result DriverInfo)
  unfolding connect_rpc get_driver_info
  connect_rpc_and_get_driver_info fuel endpoint =
      if not (starts_with endpoint "unix://")
      then some (err (not_a_unix_socket endpoint))
      else if not (ends_with endpoint ".sock")
      then some (err (no_sock_extension endpoint))
      else Option.map (get_driver_info endpoint) (connect_rpc fuel endpoint)
