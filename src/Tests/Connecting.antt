-- ===== src/Tests/Connecting.antt =====
-- The Sidecar's connection to its driver.
use container_object_storage.Prelude.{
  ℕ, ◌≡◌, ◌<◌, ◌↔◌, refl, String, true, none, some, [], ◌∷◌, arith, starts_with, nat_eq, nat_lt,
  if◌then◌else◌,
}
use container_object_storage.Errors.{Result, ok}
use container_object_storage.Driver.{
  DriverInfo, validate_and_set_driver_connection_info, validate_driver_name, split_labels,
  validate_and_parse_protocols,
}
use container_object_storage.Connection.{
  idle, connecting, ready, Grpc, ends_with, connect_rpc_and_get_driver_info, wait_until_ready,
  rpc_endpoint,
}
use container_object_storage.Connection.Waiting.{HasDeadline, IsConnected}
use container_object_storage.Connection.Laws.{
  IsDriver, connect_rpc_and_get_driver_info_returns, connect_rpc_and_get_driver_info_iff,
}

-- The connection is ready after the second wait, and the context ends at the fifth.
abbrev grpc : Grpc
grpc = record {
  new_client = λ endpoint. ok idle;
  wait_for_state_change =
      λ n s. if nat_lt n 5 then if nat_eq n 0 then some connecting else some ready else none;
  driver_get_info = ok (record { name = "s3.example.com"; supported_protocols = 1 ∷ [] });
  state_text = λ s. "";
  label_errors = λ l. [];
}

abbrev driver : DriverInfo
driver = record { name = "s3.example.com"; supported_protocols = 1 ∷ [] }

deadline : HasDeadline grpc 5
deadline s = refl

abbrev endpoint : String
endpoint = rpc_endpoint none

connect_rpc_and_get_driver_info_returns_example :
    (r : Result DriverInfo) × ((fuel : ℕ)
      → 5 < fuel
      → connect_rpc_and_get_driver_info grpc fuel endpoint ≡ some r)
connect_rpc_and_get_driver_info_returns_example =
    connect_rpc_and_get_driver_info_returns grpc deadline endpoint

connect_rpc_and_get_driver_info_iff_example :
    (connect_rpc_and_get_driver_info grpc 6 endpoint ≡ some (ok driver)) ↔ (
      (starts_with endpoint "unix://" ≡ true)
      × (ends_with endpoint ".sock" ≡ true)
      × (grpc.new_client endpoint ≡ ok idle)
      × IsConnected grpc
      × IsDriver grpc driver)
connect_rpc_and_get_driver_info_iff_example =
    connect_rpc_and_get_driver_info_iff grpc {m = 5} deadline (omega arith) endpoint driver

sidecar_starts : connect_rpc_and_get_driver_info grpc 6 endpoint ≡ some (ok driver)
unfolding connect_rpc_and_get_driver_info rpc_endpoint wait_until_ready
    validate_and_set_driver_connection_info validate_driver_name split_labels
    validate_and_parse_protocols
sidecar_starts = refl
