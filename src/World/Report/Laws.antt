-- ===== src/World/Report/Laws.antt =====
-- The frame of `Reconcile`: what becomes of an error.
use container_object_storage.Prelude.{◌≡◌, ◌⊎◌, ◌↔◌, inl, inr, refl, true, ◌∷◌, Bool-cases}
use container_object_storage.Errors.{Error, Result, ok, err, is_non_retryable}
use container_object_storage.World.{Env, Call, History, Outcome, retry, terminal}
use container_object_storage.World.Action.{State, Action, ◌>>=◌, continue, object, set_object, call}
use container_object_storage.World.Report.{
  Reporter, classify, record_error, report, reconcile_found,
}

-- The error is what a `Reconcile` reports: its latest call sent an object whose status is good for the
-- error, and the outcome is a terminal error exactly when this call succeeded and the error wraps a
-- non-retryable one, and is otherwise an error to be retried.
pub record IsRecorded {O : Type 0} (log : O → Result O → Call) (Good : History → Error → O → Type 0)
    (e : Error) (outcome : Outcome) (history : History) : Type 0 where
  pub sent : O
  pub answer : Result O
  pub before : History
  pub same_history : history ≡ log sent answer ∷ before
  pub is_good : Good before e sent
  pub is_terminal :
      (outcome ≡ terminal e) ↔ ((is_non_retryable e ≡ true) × ((o : O) × (answer ≡ ok o)))
  pub is_error : (outcome ≡ terminal e) ⊎ (outcome ≡ retry e)

module _ {O : Type 0} (log : O → Result O → Call) (on : History → O → Result O) where
  -- `r.Status().Update(ctx, object)`
  unfoldable pub sending : Action O (Unit {0})
  sending = do o ← object; stored ← call (log o) (λ h. on h o); set_object stored

module _ {O : Type 0} (log : O → Result O → Call) (on : History → O → Result O) (r : Reporter O)
    (sends : r.update_status ≡ sending log on) (Good : History → Error → O → Type 0)
    (good : (h : History) (e : Error) (o : O) → Good h e (r.with_error h e o)) where
  abbrev answered : O → Result O → History → State O
  answered o a h = record { object = o; history = log o a ∷ h }

  IsRecorded-ok :
      (o d : O) (e : Error) (h : History)
      → Good h e o
      → IsRecorded log Good e (classify e (ok tt)) (log o (ok d) ∷ h)
  unfolding classify
  IsRecorded-ok o d e h g = record {
    sent = o;
    answer = ok d;
    before = h;
    same_history = refl;
    is_good = g;
    is_terminal = elim (Bool-cases (is_non_retryable e)) [
      | inl t ↦ rw t ((λ _. (refl, (d, refl))), (λ _. refl))
      | inr t ↦ rw t ((λ z. cc), (λ z. cc))
    ];
    is_error = elim (Bool-cases (is_non_retryable e)) [
      | inl t ↦ rw t (inl refl)
      | inr t ↦ rw t (inr refl)
    ];
  }

  IsRecorded-answer :
      (o : O) (e : Error) (h : History) (a : Result O)
      → Good h e o
      → IsRecorded log Good e
          (classify e (continue a set_object (answered o a h)).0)
          (continue a set_object (answered o a h)).1.history
  unfolding classify ◌>>=◌
  IsRecorded-answer o e h (ok d) g = IsRecorded-ok o d e h g
  IsRecorded-answer o e h (err x) g = record {
    sent = o;
    answer = err x;
    before = h;
    same_history = refl;
    is_good = g;
    is_terminal = ((λ z. cc), (λ z. cc));
    is_error = inr refl;
  }

  recorded :
      (e : Error) (s : State O)
      → IsRecorded log Good e (record_error r e s).0 (record_error r e s).1.history
  unfolding record_error sending ◌>>=◌
  recorded e s =
      let o = r.with_error s.history e s.object in
      rw sends (IsRecorded-answer o e s.history (on s.history o) (good s.history e s.object))

  reported :
      (e : Error) (x : Result (Unit {0}) × State O)
      → x.0 ≡ err e
      → IsRecorded log Good e (report r x).0 (report r x).1.history
  unfolding report
  reported e (ok u, s) p = cc
  reported e (err y, s) p = let q : e ≡ y = cc in rw q (recorded y s)

  pub reconcile_found-IsRecorded :
      (env : Env) (reconcile : Action O (Unit {0})) (o : O) (h : History) (e : Error)
      → (reconcile (record { object = o; history = h })).0 ≡ err e
      → IsRecorded log Good e
          (reconcile_found r env reconcile (ok o) h).0
          (reconcile_found r env reconcile (ok o) h).1
  unfolding reconcile_found
  reconcile_found-IsRecorded env reconcile o h e p =
      reported e (reconcile (record { object = o; history = h })) p
