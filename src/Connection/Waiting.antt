-- ===== src/Connection/Waiting.antt =====
-- sidecar/cmd/rpc.go: the loop of `connectRpc`, and the rounds that it makes.
use Prim.Native.Nat.{◌-◌}
use container_object_storage.Prelude.{
  ℕ, zero, suc, ◌+◌, ◌≤◌, ◌<◌, ◌≡◌, ◌≢◌, ◌⊎◌, inl, inr, refl, ◌∙◌, true, false, none, some, arith,
  Bool-cases, Option-cases,
}
use container_object_storage.Errors.{Result, ok, err}
use container_object_storage.Connection.{
  Connectivity, idle, connecting, ready, transient_failure, shutdown, Grpc, timed_out, is_ready,
  is_idle, after_wait, wait_until_ready,
}

module _ (g : Grpc) where
  -- The rounds of the loop: the state before each, none of them ready.
  pub data Visits : ℕ → Connectivity → Type 0 where
    first : Visits 0 idle
    later :
        {n : ℕ} {s t : Connectivity}
        → Visits n s
        → g.wait_for_state_change n s ≡ some t
        → is_ready t ≡ false
        → Visits (suc n) t

  -- A round of the loop finds the connection ready.
  pub record IsConnected : Type 0 where
    pub round : ℕ
    pub state : Connectivity
    pub visits : Visits round state
    pub is_connected : g.wait_for_state_change round state ≡ some ready

  -- The context has ended at the m-th wait at the latest, whatever the state is.
  abbrev pub HasDeadline : ℕ → Type 0
  HasDeadline m = (s : Connectivity) → g.wait_for_state_change m s ≡ none

  Visits-bounded : {m n : ℕ} {s : Connectivity} → HasDeadline m → Visits n s → n ≤ m
  Visits-bounded d first = omega arith
  Visits-bounded {m} d (later {n} {s} v e r) =
      let ih = Visits-bounded d v in
      let n_is_not_m : n ≢ m = λ p. let q = rw p at e in cc (q, d s) in omega arith

  -- The loop, started with enough fuel, gets to each of its rounds.
  wait_until_ready-Visits :
      {n : ℕ} {s : Connectivity} (k : ℕ)
      → Visits n s
      → wait_until_ready g (n + k) 0 idle ≡ wait_until_ready g k n s
  unfolding wait_until_ready after_wait
  wait_until_ready-Visits k first = let p : (0 + k ≡ k) = omega arith in rw p refl
  wait_until_ready-Visits k (later {n} {s} {t} v e r) =
      let ih = wait_until_ready-Visits (suc k) v in
      let p : (suc n + k ≡ n + suc k) = omega arith in
      let step : (wait_until_ready g (suc k) n s ≡ wait_until_ready g k (suc n) t) =
        rw e (rw r refl) in
      rw p (ih ∙ step)

  is_ready_lem : (t : Connectivity) → is_ready t ≡ true → t ≡ ready
  unfolding is_ready
  is_ready_lem ready h = refl
  is_ready_lem idle h = cc
  is_ready_lem connecting h = cc
  is_ready_lem transient_failure h = cc
  is_ready_lem shutdown h = cc

  pub is_idle_lem : (s : Connectivity) → is_idle s ≡ true → s ≡ idle
  unfolding is_idle
  is_idle_lem idle h = refl
  is_idle_lem connecting h = cc
  is_idle_lem ready h = cc
  is_idle_lem transient_failure h = cc
  is_idle_lem shutdown h = cc

  -- From any round on the loop ends by the round of the deadline.
  pub wait_until_ready_ends :
      {m : ℕ} (fuel n : ℕ) (s : Connectivity)
      → HasDeadline m
      → n ≤ m
      → m < n + fuel
      → Visits n s
      → (wait_until_ready g fuel n s ≡ some (err timed_out))
        ⊎ ((wait_until_ready g fuel n s ≡ some (ok tt)) × IsConnected)
  unfolding wait_until_ready after_wait
  wait_until_ready_ends zero n s d le lt v = absurd (omega arith)
  wait_until_ready_ends (suc fuel) n s d le lt v =
      elim (Option-cases (g.wait_for_state_change n s)) [
        | inl e ↦ inl (rw e refl)
        | inr (t, e) ↦ elim (Bool-cases (is_ready t)) [
          | inl r ↦
              let p = is_ready_lem t r in
              let visited : IsConnected = record {
                round = n;
                state = s;
                visits = v;
                is_connected = rw p at e;
              } in
              inr (rw (e, r) refl, visited)
          | inr r ↦
              rw (e, r)
                (let v' = later v e r in
                  wait_until_ready_ends fuel (suc n) t d (Visits-bounded d v') (omega arith) v')
        ]
      ]

  -- A ready connection is found by every amount of fuel that is past the deadline.
  pub wait_until_ready-IsConnected :
      {m : ℕ} (fuel : ℕ)
      → HasDeadline m
      → m < fuel
      → IsConnected
      → wait_until_ready g fuel 0 idle ≡ some (ok tt)
  unfolding wait_until_ready after_wait is_ready
  wait_until_ready-IsConnected {m} fuel d lt c =
      let bound : c.round ≤ m = Visits-bounded d c.visits in
      let rest : ℕ = fuel - suc c.round in
      let p : (fuel ≡ c.round + suc rest) = omega arith in
      let step : (wait_until_ready g (suc rest) c.round c.state ≡ some (ok tt)) =
        rw c.is_connected refl in
      rw p (wait_until_ready-Visits (suc rest) c.visits ∙ step)

  pub wait_until_ready_returns :
      {m : ℕ}
      → HasDeadline m
      → (r : Result (Unit {0})) × ((fuel : ℕ) → m < fuel → wait_until_ready g fuel 0 idle ≡ some r)
  wait_until_ready_returns {m} d =
      elim (wait_until_ready_ends (suc m) 0 idle d (omega arith) (omega arith) first) [
        | inl e ↦ (
          err timed_out,
          λ fuel lt. elim (wait_until_ready_ends fuel 0 idle d (omega arith) (omega arith) first) [
            | inl p ↦ p
            | inr (p, c) ↦ let q = wait_until_ready-IsConnected (suc m) d (omega arith) c in cc
          ],
        )
        | inr (e, c) ↦ (ok tt, λ fuel lt. wait_until_ready-IsConnected fuel d lt c)
      ]
