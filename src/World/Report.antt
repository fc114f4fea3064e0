-- ===== src/World/Report.antt =====
-- The frame that every `Reconcile` has around its `reconcile`: the object is read, an error is
-- recorded in its status and classified, and after a success an error in the status may be cleared.
pub mod Laws
use container_object_storage.Prelude.{Bool, true, false, if◌then◌else◌}
use container_object_storage.Errors.{Error, is_non_retryable, Result, ok, err}
use container_object_storage.World.{Env, History, Outcome, success, retry, terminal}
use container_object_storage.World.Action.{State, Action}

-- What the frame does with an object of a kind.
pub record Reporter (O : Type 0) : Type 0 where
  pub update_status : Action O (Unit {0})
  pub with_error : History → Error → O → O
  -- The condition of the second part, and what it does to the object.
  pub must_clear : O → Bool
  pub without_error : O → O

-- A failed status update makes the error one to be retried.
unfoldable pub classify : Error → Result (Unit {0}) → Outcome
classify e (err u) = retry e
classify e (ok u) = if is_non_retryable e then terminal e else retry e

cleared : Result (Unit {0}) → Outcome
cleared (ok u) = success
cleared (err u) = retry u

module _ {O : Type 0} (r : Reporter O) where
  unfoldable pub record_error : Error → State O → Outcome × State O
  unfolding classify
  record_error e s =
      let (u, s') = r.update_status (record s { object = r.with_error s.history e s.object }) in
      (classify e u, s')

  unfoldable pub clear_error : State O → Outcome × State O
  unfolding cleared
  clear_error s =
      let (u, s') = r.update_status (record s { object = r.without_error s.object }) in
      if r.must_clear s.object then (cleared u, s') else (success, s)

  unfoldable pub report : Result (Unit {0}) × State O → Outcome × State O
  unfolding record_error clear_error
  report (err e, s) = record_error e s
  report (ok u, s) = clear_error s

  -- From the answer to the read of the object on.
  unfoldable pub reconcile_found :
      Env → Action O (Unit {0}) → Result O → History → Outcome × History
  unfolding report
  reconcile_found env reconcile (err e) h = (if env.is_not_found e then success else retry e, h)
  reconcile_found env reconcile (ok o) h =
      let (outcome, s) = report (reconcile (record { object = o; history = h })) in
      (outcome, s.history)
