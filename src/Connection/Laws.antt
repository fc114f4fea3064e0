-- ===== src/Connection/Laws.antt =====
-- sidecar/cmd/rpc.go: when the start-up returns, and when it has a driver.
use container_object_storage.Prelude.{
  ℕ, ◌<◌, ◌≡◌, ◌↔◌, inl, inr, refl, ap, ◌∙◌, String, true, some, arith, starts_with, Bool-cases,
}
use container_object_storage.Errors.{Error, Result, ok, err, Result-cases}
use container_object_storage.World.Action.{map_error}
use container_object_storage.Driver.{DriverInfo, validate_and_set_driver_connection_info}
use container_object_storage.Rpc.{DriverGetInfoResponse}
use container_object_storage.Connection.{
  Connectivity, idle, Grpc, ends_with, not_idle, not_a_unix_socket, no_sock_extension, is_idle,
  wait_until_ready, connect_client, connect_rpc, validate_response, get_driver_info,
  connect_rpc_and_get_driver_info,
}
use container_object_storage.Connection.Waiting.{
  IsConnected, HasDeadline, is_idle_lem, wait_until_ready_ends, wait_until_ready-IsConnected,
  wait_until_ready_returns, first,
}

module _ (g : Grpc) where
  connect_client_returns :
      {m : ℕ} (c : Result Connectivity)
      → HasDeadline g m
      → (r : Result (Unit {0})) × ((fuel : ℕ) → m < fuel → connect_client g fuel c ≡ some r)
  unfolding connect_client
  connect_client_returns (err e) d = (_, λ fuel lt. refl)
  connect_client_returns (ok s) d = elim (Bool-cases (is_idle s)) [
    | inl i ↦
        let (r, k) = wait_until_ready_returns g d in
        (r, λ fuel lt. rw i (rw (is_idle_lem g s i) (k fuel lt)))
    | inr i ↦ (err (not_idle (g.state_text s)), λ fuel lt. rw i refl)
  ]

  -- When the context ends by the m-th wait, the Sidecar's start-up returns with the driver's info or with
  -- an error, for every endpoint; more than m rounds of fuel are enough, and its amount does not matter.
  pub connect_rpc_and_get_driver_info_returns :
      {m : ℕ}
      → HasDeadline g m
      → (endpoint : String)
      → (r : Result DriverInfo) × ((fuel : ℕ)
          → m < fuel
          → connect_rpc_and_get_driver_info g fuel endpoint ≡ some r)
  unfolding connect_rpc_and_get_driver_info connect_rpc
  connect_rpc_and_get_driver_info_returns d endpoint =
      elim (Bool-cases (starts_with endpoint "unix://")) [
        | inl p ↦ elim (Bool-cases (ends_with endpoint ".sock")) [
          | inl q ↦
              let (r, k) = connect_client_returns (g.new_client endpoint) d in
              (get_driver_info g endpoint r, λ fuel lt. rw (p, q, k fuel lt) refl)
          | inr q ↦ (err (no_sock_extension endpoint), λ fuel lt. rw (p, q) refl)
        ]
        | inr p ↦ (err (not_a_unix_socket endpoint), λ fuel lt. rw p refl)
      ]

  connect_client_iff :
      {m : ℕ} {fuel : ℕ} (c : Result Connectivity)
      → HasDeadline g m
      → m < fuel
      → (connect_client g fuel c ≡ some (ok tt)) ↔ ((c ≡ ok idle) × IsConnected g)
  unfolding connect_client is_idle
  connect_client_iff (err e) d lt = (λ h. cc, λ h. let p = h.0 in cc)
  connect_client_iff {fuel = fuel} (ok s) d lt = (
    λ h. elim (Bool-cases (is_idle s)) [
      | inl i ↦
          let p = is_idle_lem g s i in
          let h' : wait_until_ready g fuel 0 idle ≡ some (ok tt) = rw p at (rw i at h) in
          elim (wait_until_ready_ends g fuel 0 idle d (omega arith) (omega arith) first) [
            | inl q ↦ cc
            | inr (q, c) ↦ (ap ok p, c)
          ]
      | inr i ↦ let h' = rw i at h in cc
    ],
    λ (e, c). let p : s ≡ idle = cc in rw p (wait_until_ready-IsConnected g fuel d lt c),
  )

  -- What the driver answers about itself, and the check that it passes.
  pub record IsDriver (d : DriverInfo) : Type 0 where
    pub response : DriverGetInfoResponse
    pub is_answered : g.driver_get_info ≡ ok response
    pub is_valid :
        validate_and_set_driver_connection_info g.label_errors response.name
          response.supported_protocols
        ≡ ok d

  map_error_iff :
      (f : Error → Error) (r : Result DriverInfo) (d : DriverInfo)
      → (map_error f r ≡ ok d) ↔ (r ≡ ok d)
  map_error_iff f (ok a) d = (λ h. h, λ h. h)
  map_error_iff f (err e) d = (λ h. cc, λ h. cc)

  get_driver_info_iff :
      (endpoint : String) (d : DriverInfo) (r : Result (Unit {0}))
      → (get_driver_info g endpoint r ≡ ok d) ↔ ((r ≡ ok tt) × IsDriver d)
  unfolding get_driver_info validate_response
  get_driver_info_iff endpoint d (err e) = (λ h. cc, λ h. let p = h.0 in cc)
  get_driver_info_iff endpoint d (ok u) = elim (Result-cases g.driver_get_info) [
    | inl (a, e) ↦ (
      λ h. (
        refl,
        record { response = a; is_answered = e; is_valid = (map_error_iff _ _ d).0 (rw e at h) },
      ),
      λ (p, v).
          let q : a ≡ v.response = let p' = v.is_answered in cc in
          rw e ((map_error_iff _ _ d).1 (rw (← q) at v.is_valid)),
    )
    | inr (x, e) ↦ (λ h. let h' = rw e at h in cc, λ (p, v). let q = v.is_answered in cc)
  ]

  -- When the context ends by the m-th wait and the fuel exceeds m, the start-up returns a driver's info
  -- exactly when the endpoint starts with `unix://` and ends with `.sock`, the new client is idle, the
  -- connection becomes ready before the deadline, and the driver's answer passes the validation.
  pub connect_rpc_and_get_driver_info_iff :
      {m fuel : ℕ}
      → HasDeadline g m
      → m < fuel
      → (endpoint : String) (d : DriverInfo)
      → (connect_rpc_and_get_driver_info g fuel endpoint ≡ some (ok d)) ↔ (
          (starts_with endpoint "unix://" ≡ true)
          × (ends_with endpoint ".sock" ≡ true)
          × (g.new_client endpoint ≡ ok idle)
          × IsConnected g
          × IsDriver d)
  unfolding connect_rpc_and_get_driver_info connect_rpc
  connect_rpc_and_get_driver_info_iff {m} {fuel} deadline lt endpoint d =
      let (r, k) = connect_client_returns (g.new_client endpoint) deadline in
      let connects = connect_client_iff (g.new_client endpoint) deadline lt in
      let info = get_driver_info_iff endpoint d r in
      elim (Bool-cases (starts_with endpoint "unix://")) [
        | inl p ↦ elim (Bool-cases (ends_with endpoint ".sock")) [
          | inl q ↦ (
            λ h.
                let connected = k fuel lt in
                let h'' = rw connected at (rw q at (rw p at h)) in
                let h' : get_driver_info g endpoint r ≡ ok d = cc in
                let i = info.0 h' in
                let c = connects.0 (k fuel lt ∙ ap some i.0) in (p, q, c.0, c.1, i.1),
            λ h.
                let c = connects.1 (h.2, h.3) in
                let connected = k fuel lt in
                let e : r ≡ ok tt = cc in rw (p, q, connected) (ap some (info.1 (e, h.4))),
          )
          | inr q ↦ (λ h. let h' = rw q at (rw p at h) in cc, λ h. let e = h.1 in cc)
        ]
        | inr p ↦ (λ h. let h' = rw p at h in cc, λ h. let e = h.0 in cc)
      ]
