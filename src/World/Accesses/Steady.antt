-- ===== src/World/Accesses/Steady.antt =====
-- What both reconcilers of BucketAccesses leave as it is in a BucketAccess that was handed over to the
-- Sidecar, in memory and in what they store.
use container_object_storage.Prelude.{◌≡◌, refl, ◌∙◌, [], ◌∷◌}
use container_object_storage.Errors.{Result, ok, err}
use container_object_storage.Api.Access.{BucketAccess}
use container_object_storage.World.{
  Env, Call, History, update_bucket_access, update_bucket_access_status, driver_grant_bucket_access,
  driver_revoke_bucket_access,
}
use container_object_storage.World.Action.{State, Action, call, modify, object, set_object, ◌>>=◌}
use container_object_storage.World.Report.{report, record_error, clear_error, reconcile_found}
use container_object_storage.World.Ensures.{
  Ensures-bind, Ensures-call, Ensures-object, Ensures-set_object, Ensures-always, Ensures-loosen,
  Ensures-given,
}
use container_object_storage.World.Ensures.Invariant.{
  Preserves, Preserves-call, Preserves-modify, preserves,
}
use container_object_storage.World.Accesses.{
  update_access, update_access_status, protect_access, access_reporter,
}
use container_object_storage.World.Accesses.Handover.{handover, IsGrantFor, IsRevocationFor}
use container_object_storage.World.Accesses.Protection.{KeepsAccesses, IsSameAccess}

module _ (a : BucketAccess) where
  abbrev pub IsKept : BucketAccess → Type 0
  IsKept b = handover a ≡ handover b

  abbrev pub IsKeptBy : Result BucketAccess → Type 0
  IsKeptBy (ok b) = IsKept b
  IsKeptBy (err e) = Unit

  -- A BucketAccess is sent, and stored, with the hand-over that it had, and the driver is called with what
  -- this says.
  abbrev pub IsSent : Call → Type 0
  IsSent (update_bucket_access b r) = IsKept b × IsKeptBy r
  IsSent (update_bucket_access_status b r) = IsKept b × IsKeptBy r
  IsSent (driver_grant_bucket_access q r) = IsGrantFor (handover a) q
  IsSent (driver_revoke_bucket_access q r) = IsRevocationFor (handover a) q
  IsSent _ = Unit

  abbrev pub AreSent : History → Type 0
  AreSent [] = Unit
  AreSent (x ∷ h) = IsSent x × AreSent h

  pub record Steady (s : State BucketAccess) : Type 0 where
    pub is_kept : IsKept s.object
    pub are_sent : AreSent s.history

pub same_handover :
    {a b : BucketAccess} → IsSameAccess a b × (a.status ≡ b.status) → handover a ≡ handover b
same_handover h = rw (h.0.same_namespace, h.0.same_name, h.0.same_uid, h.0.same_spec, h.1) refl

module _ {a : BucketAccess} where
  pub Steady-call :
      {A : Type 0} (log : Result A → Call) (answer : History → Result A)
      → ((r : Result A) → IsSent a (log r))
      → Preserves (Steady a) (call log answer)
  Steady-call log answer k =
      Preserves-call log answer
        (λ r s h. record { is_kept = h.is_kept; are_sent = (k r, h.are_sent) })

  pub Steady-modify :
      (f : BucketAccess → BucketAccess)
      → ((b : BucketAccess) → handover b ≡ handover (f b))
      → Preserves (Steady a) (modify f)
  Steady-modify f k =
      Preserves-modify f (λ s h. record { is_kept = h.is_kept ∙ k s.object; are_sent = h.are_sent })

  -- The object that is read has what was handed over.
  pub Steady-object :
      {A : Type 0} {f : BucketAccess → Action BucketAccess A}
      → ((b : BucketAccess) → IsKept a b → Preserves (Steady a) (f b))
      → Preserves (Steady a) (object >>= f)
  Steady-object k = record {
    holds =
        Ensures-bind (λ b s. IsKept a b × Steady a s)
          (Ensures-loosen Ensures-object (λ b s h. (rw h.1 h.0.is_kept, h.0)))
          λ b. Ensures-given λ e. (k b e).holds;
  }

  -- An update that records what is sent and what is stored.
  send-Steady :
      (log : BucketAccess → Result BucketAccess → Call)
      (answer : History → BucketAccess → Result BucketAccess)
      → ((b : BucketAccess) (r : Result BucketAccess)
          → IsKept a b
          → IsKeptBy a r
          → IsSent a (log b r))
      → ((h : History) (b c : BucketAccess)
          → answer h b ≡ ok c
          → IsSameAccess b c × (b.status ≡ c.status))
      → Preserves (Steady a) (object >>= λ b. call (log b) (λ h. answer h b) >>= λ c. set_object c)
  send-Steady log answer sent same = record {
    holds = Ensures-bind _ Ensures-object λ b.
        Ensures-bind (λ c s. IsKept a c × AreSent a s.history)
          (Ensures-call (log b) _
            (λ c s (t, q) e.
              let k : IsKept a b = rw q t.is_kept in
              let k' : IsKept a c = k ∙ same_handover (same s.history b c e) in
              (k', (sent b (ok c) k k', t.are_sent)))
            (λ x s (t, q) e. record {
              is_kept = t.is_kept;
              are_sent = (sent b (err x) (rw q t.is_kept) tt, t.are_sent);
            }))
          λ c. Ensures-set_object c (λ s h. record { is_kept = h.0; are_sent = h.1 });
  }

  module _ (env : Env) (keeps : KeepsAccesses env) where
    pub update_access-Steady : Preserves (Steady a) (update_access env)
    unfolding update_access
    update_access-Steady =
        send-Steady update_bucket_access env.on_update_bucket_access (λ b r k k'. (k, k'))
          keeps.on_object

    pub update_access_status-Steady : Preserves (Steady a) (update_access_status env)
    unfolding update_access_status
    update_access_status-Steady =
        send-Steady update_bucket_access_status env.on_update_bucket_access_status
          (λ b r k k'. (k, k')) keeps.on_status

    pub protect_access-Steady : Preserves (Steady a) (protect_access env)
    unfolding protect_access
    protect_access-Steady = search (preserves, update_access-Steady, Steady-modify)

pub ruleset steady = (Steady-call, Steady-modify, preserves)

module _ (env : Env) (keeps : KeepsAccesses env) (a : BucketAccess) where
  report-AreSent :
      (r : Result (Unit {0})) (s : State BucketAccess)
      → Steady a s
      → AreSent a (report (access_reporter env) (r, s)).1.history
  unfolding report record_error clear_error access_reporter
  report-AreSent (ok u) s h = h.are_sent
  report-AreSent (err e) s h =
      (Ensures-always (update_access_status-Steady {a = a} env keeps).holds _
        (record { is_kept = h.is_kept; are_sent = h.are_sent })).are_sent

  -- The frame around `reconcile` keeps what `reconcile` keeps.
  pub reconcile_found-AreSent :
      (m : Action BucketAccess (Unit {0})) (h : History)
      → Preserves (Steady a) m
      → AreSent a h
      → AreSent a (reconcile_found (access_reporter env) env m (ok a) h).1
  unfolding reconcile_found
  reconcile_found-AreSent m h km sent =
      let s : State BucketAccess = record { object = a; history = h } in
      report-AreSent (m s).0 (m s).1
        (Ensures-always km.holds s (record { is_kept = refl; are_sent = sent }))
