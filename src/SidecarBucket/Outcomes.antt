-- ===== src/SidecarBucket/Outcomes.antt =====
-- bucket.go: what becomes of an error of `reconcile`, and the deletion of a Bucket.
use container_object_storage.Prelude.{
  ◌≡◌, ◌≢◌, refl, ◌∙◌, String, true, false, some, none, [], ◌∷◌, arith, eq_iff,
}
use container_object_storage.Errors.{Error, Result, ok, err}
use container_object_storage.Api.Meta.{new_timestamped_error, protection_finalizer, is_deleting}
use container_object_storage.Api.Bucket.{Bucket}
use container_object_storage.Driver.{DriverInfo}
use container_object_storage.Runtime.{IsLawful}
use container_object_storage.World.{Env, History, get_bucket, update_bucket, update_bucket_status}
use container_object_storage.World.Action.{State, start}
use container_object_storage.World.Ensures.{
  Ensures, Ensures-bind, Ensures-fail, Ensures-branch, Ensures-on_error, Ensures-call,
  Ensures-object, Ensures-set_object, Ensures-modify, Ensures-always, Ensures-loosen,
  Ensures-weaken, Ensures-success,
}
use container_object_storage.World.Report.Laws.{IsRecorded, sending, reconcile_found-IsRecorded}
use container_object_storage.SidecarBucket.{
  update, update_status, set_finalizers, cleanup, reconcile, reconcile_request, bucket_reporter,
}

module _ (env : Env) where
  -- The status has the error with the time of its recording, and says whether the Bucket is ready.
  abbrev pub HasError : History → Error → Bucket → Type 0
  HasError h e b =
      (b.status.error ≡ some (new_timestamped_error (env.now h) (env.error_text e)))
      × (b.status.ready_to_use ≢ none)

  bucket_reporter-sends :
      (bucket_reporter env).update_status ≡ sending update_bucket_status env.on_update_bucket_status
  unfolding bucket_reporter update_status sending
  bucket_reporter-sends = refl

  bucket_reporter-HasError :
      (h : History) (e : Error) (b : Bucket) → HasError h e ((bucket_reporter env).with_error h e b)
  unfolding bucket_reporter
  bucket_reporter-HasError h e b = (refl, λ z. cc)

  module _ (info : DriverInfo) where
    -- When `reconcile` fails on the Bucket that was read, the latest call of `Reconcile` sends the
    -- Bucket with the error in its status; the outcome is a terminal error exactly when this call
    -- succeeded and the error wraps a non-retryable one, and is otherwise an error to be retried.
    pub reconcile_request-IsRecorded :
        (name : String) (h : History) (b : Bucket) (e : Error)
        → env.on_get_bucket h name ≡ ok b
        → (reconcile env info (record { object = b; history = get_bucket name (ok b) ∷ h })).0
          ≡ err e
        → IsRecorded update_bucket_status HasError e
            (reconcile_request env info name h).0
            (reconcile_request env info name h).1
    unfolding reconcile_request
    reconcile_request-IsRecorded name h b e p q = rw p (
        reconcile_found-IsRecorded update_bucket_status env.on_update_bucket_status
          (bucket_reporter env) bucket_reporter-sends HasError bucket_reporter-HasError env
          (reconcile env info) b (get_bucket name (ok b) ∷ h) e q)

  module _ (lawful : IsLawful env.runtime) (b : Bucket) where
    -- The only call is an update of the Bucket without the protection finalizer.
    abbrev pub IsUnprotected : History → Type 0
    IsUnprotected (update_bucket d r ∷ []) =
        (d.status ≡ b.status)
        × (d.spec ≡ b.spec)
        × (env.runtime.contains_finalizer d.metadata.finalizers protection_finalizer ≡ false)
    IsUnprotected _ = ⊥

    abbrev Unprotected : State Bucket → Type 0
    Unprotected s = IsUnprotected s.history

    updated-IsUnprotected :
        (d : Bucket) (r : Result Bucket) (h : History)
        → h ≡ []
        → (d.status ≡ b.status)
          × (d.spec ≡ b.spec)
          × (env.runtime.contains_finalizer d.metadata.finalizers protection_finalizer ≡ false)
        → IsUnprotected (update_bucket d r ∷ h)
    updated-IsUnprotected d r [] e p = p
    updated-IsUnprotected d r (x ∷ h) e p = cc

    cleanup-unprotects :
        Ensures (λ s. (s.object ≡ b) × (s.history ≡ [])) (cleanup env) (λ _ _. ⊥) (λ _. Unprotected)
    unfolding cleanup set_finalizers update
    cleanup-unprotects = Ensures-bind _ Ensures-object λ o.
        Ensures-bind
          (λ _ s.
            (s.history ≡ [])
            × (s.object.status ≡ b.status)
            × (s.object.spec ≡ b.spec)
            × (env.runtime.contains_finalizer s.object.metadata.finalizers protection_finalizer
                ≡ false))
          (Ensures-modify _ (λ s h. (
            h.0.1,
            rw h.0.0 refl,
            rw h.0.0 refl,
            lawful.contains-remove_finalizer o.metadata.finalizers protection_finalizer,
          )))
          λ _.
            Ensures-bind (λ _. Unprotected)
              (Ensures-on_error (λ _. Unprotected) _
                (Ensures-bind _ Ensures-object λ o.
                  Ensures-bind (λ _. Unprotected)
                    (Ensures-call _ _
                      (λ a s h e.
                        updated-IsUnprotected o (ok a) s.history h.0.0
                          (rw h.1 (h.0.1, h.0.2, h.0.3)))
                      (λ x s h e.
                        updated-IsUnprotected o (err x) s.history h.0.0
                          (rw h.1 (h.0.1, h.0.2, h.0.3))))
                    λ c. Ensures-set_object _ (λ s h. h))
                (λ e s h. h))
              λ _. Ensures-fail _ (λ s h. h)

    deletion-unprotects :
        (info : DriverInfo)
        → b.spec.driver_name ≡ info.name
        → is_deleting b.metadata ≡ true
        → Ensures
            (λ s. (s.object ≡ b) × (s.history ≡ []))
            (reconcile env info)
            (λ _ _. ⊥)
            (λ _. Unprotected)
    unfolding reconcile
    deletion-unprotects info n d = Ensures-bind _ Ensures-object λ o.
        Ensures-branch _
          (λ t. record {
            at = λ s h.
                let t' = rw (h.1 ∙ h.0.0) at t in
                absurd (ground (arith, eq_iff b.spec.driver_name info.name));
          })
          λ _.
            Ensures-branch _ (λ _. Ensures-weaken cleanup-unprotects (λ s h. h.0))
              (λ t. record { at = λ s h. let t' = rw (h.1 ∙ h.0.0) at t in absurd (ground arith) })

    -- Where the finalizer helpers do what they document: while a Bucket of its driver is being
    -- deleted, `reconcile` never succeeds, and its only call is an update of the Bucket with its
    -- spec and status and without the protection finalizer; the driver is not called.
    pub deletion-IsUnprotected :
        (info : DriverInfo)
        → b.spec.driver_name ≡ info.name
        → is_deleting b.metadata ≡ true
        → ((reconcile env info (start b)).0 ≢ ok tt)
          × IsUnprotected (reconcile env info (start b)).1.history
    deletion-IsUnprotected info n d = (
      λ e. Ensures-success (deletion-unprotects info n d) (start b) (refl, refl) e,
      Ensures-always (Ensures-loosen (deletion-unprotects info n d) (λ a s h. absurd h)) (start b)
          (refl, refl),
    )
