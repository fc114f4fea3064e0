-- ===== src/SidecarAccess/Outcomes.antt =====
-- sidecar/pkg/reconciler/bucketaccess.go: a reconcile as a whole.
use container_object_storage.Prelude.{
  ◌≡◌, ◌≢◌, ◌⊎◌, inl, inr, refl, sym, ap, ◌∙◌, subst, true, ◌∷◌, eq_iff, All, arith,
  dict_get-dict_set,
}
use container_object_storage.Errors.{ok}
use container_object_storage.Api.Meta.{
  sidecar_cleanup_finished_annotation, has_annotation, is_deleting,
}
use container_object_storage.Api.Access.{BucketAccess}
use container_object_storage.Rpc.{DriverRevokeBucketAccessRequest}
use container_object_storage.World.{Env, History, update_bucket_access, driver_revoke_bucket_access}
use container_object_storage.World.Recorded.{Recorded}
use container_object_storage.World.Action.{State}
use container_object_storage.World.Accesses.{update_access, update_access_status}
use container_object_storage.World.Accesses.Protection.{
  IsSameAccess, KeepsAccesses, Fresh, IsSameAccess-trans,
}
use container_object_storage.World.Ensures.Steps.{Ensures-lifted}
use container_object_storage.World.Ensures.{
  Ensures, Ensures-bind, Ensures-when, Ensures-on_error, Ensures-call, Ensures-object,
  Ensures-set_object, Ensures-modify, Ensures-given, Ensures-loosen,
}
use container_object_storage.SidecarAccess.Evidence.{KeepsSecrets, IsCareful}
use container_object_storage.SidecarAccess.Removal.{
  IsGone, IsGone-later, Doomed, delete_owned-AreGone,
}
use container_object_storage.SidecarAccess.Ready.{All-map}
use container_object_storage.SidecarAccess.{cleaned_up, driver_revoke_access, reconcile_delete}

module _ (env : Env) (a : BucketAccess) where
  -- There was no account to revoke, or the driver answered that its access is revoked.
  abbrev pub IsRevoked : History → Type 0
  IsRevoked h =
      (a.status.account_id ≡ "")
      ⊎ ((q : DriverRevokeBucketAccessRequest) × (q.account_id ≡ a.status.account_id)
          × Recorded (driver_revoke_bucket_access q (ok tt)) h)

  -- The latest call stored the annotation that gives the BucketAccess back to the Controller, after its
  -- account was revoked and its Secrets were gone.
  abbrev pub IsCleanedUp : History → Type 0
  IsCleanedUp (update_bucket_access b (ok c) ∷ h) =
      IsSameAccess a b
      × (has_annotation sidecar_cleanup_finished_annotation b.metadata ≡ true)
      × IsRevoked h
      × All (IsGone env a h) a.spec.bucket_claims
  IsCleanedUp _ = ⊥

  module _ (keeps : KeepsAccesses env) (secrets : KeepsSecrets env)
      (deleting : is_deleting a.metadata ≡ true) where
    abbrev Careful : State BucketAccess → Type 0
    Careful s = IsCareful env a s.history

    abbrev Emptied : State BucketAccess → Type 0
    Emptied s = Doomed env a s × All (IsGone env a s.history) a.spec.bucket_claims

    abbrev Revoked : State BucketAccess → Type 0
    Revoked s = Emptied s × IsRevoked s.history

    stores_revoking :
        Ensures (Doomed env a) (update_access_status env) (λ _. Doomed env a) (λ _. Careful)
    unfolding update_access_status
    stores_revoking = Ensures-bind _ Ensures-object λ b.
        Ensures-bind (λ c s. Doomed env a (record s { object = c }))
          (Ensures-call _ _
            (λ c s ((p, i, t), q) e.
              let (r, u) = keeps.on_status s.history b c e in
              (
                IsSameAccess-trans (subst (λ j. IsSameAccess a j) (sym q) p) r,
                i ∙ ap (λ j. j.status.account_id) (sym q) ∙ ap (λ j. j.account_id) u,
                t,
              ))
            (λ x s h e. h.0.2))
          λ c. Ensures-set_object c (λ s h. h)

    revokes :
        a.status.account_id ≢ ""
        → Ensures Emptied (driver_revoke_access env) (λ _. Revoked) (λ _. Careful)
    unfolding driver_revoke_access
    revokes n =
        Ensures-bind (λ b s. (b.status.account_id ≡ a.status.account_id) × Emptied s)
          (Ensures-loosen Ensures-object
            (λ b s h. (ap (λ j. j.status.account_id) h.1 ∙ sym h.0.0.1, h.0)))
          λ b. Ensures-given λ same.
            Ensures-lifted _ _ (λ s h. h.0.2)
              λ cfg configured.
                Ensures-on_error (λ _. Careful) _
                  (Ensures-call _ _
                    (λ _ s ((p, i, t), g) e. (
                      (
                        (p, i, (deleting, n, same, t)),
                        All-map (IsGone-later env a _ s.history) a.spec.bucket_claims g,
                      ),
                      inr (_, same, inl refl),
                    ))
                    (λ x s ((p, i, t), g) e. (deleting, n, same, t)))
                  (λ x s h. h)

    abbrev Marked : State BucketAccess → Type 0
    Marked s =
        (IsSameAccess a s.object
          × (has_annotation sidecar_cleanup_finished_annotation s.object.metadata ≡ true))
        × (IsRevoked s.history × All (IsGone env a s.history) a.spec.bucket_claims × Careful s)

    abbrev CleanedUp : State BucketAccess → Type 0
    CleanedUp s = IsCleanedUp s.history × Careful s

    stores_mark : Ensures Marked (update_access env) (λ _. CleanedUp) (λ _. Careful)
    unfolding update_access
    stores_mark = Ensures-bind _ Ensures-object λ b.
        Ensures-bind (λ _. CleanedUp)
          (Ensures-call _ _
            (λ c s (((p, k), (r, g, t)), q) e. (
              (
                subst (λ j. IsSameAccess a j) (sym q) p,
                ap (λ j. has_annotation sidecar_cleanup_finished_annotation j.metadata) q ∙ k,
                r,
                g,
              ),
              t,
            ))
            (λ x s h e. h.0.1.2))
          λ c. Ensures-set_object c (λ s h. h)

    marks :
        (s : State BucketAccess) → Revoked s → Marked (record s { object = cleaned_up s.object })
    marks s (((t, i, c), g), r) = (
      (
        record {
          same_namespace = t.same_namespace;
          same_name = t.same_name;
          same_uid = t.same_uid;
          same_spec = t.same_spec;
        },
        ground (
          arith,
          dict_get-dict_set s.object.metadata.annotations sidecar_cleanup_finished_annotation
              sidecar_cleanup_finished_annotation "",
        ),
      ),
      (r, g, c),
    )

    pub delete-CleanedUp :
        Ensures
          (Fresh env a (IsCareful env a) (λ b r h t. t))
          (reconcile_delete env)
          (λ _. CleanedUp)
          (λ _. Careful)
    unfolding reconcile_delete
    delete-CleanedUp =
        Ensures-bind (λ _. Doomed env a)
          (Ensures-modify _ (λ s (p, t). (
            record {
              same_namespace = ap (λ j. j.metadata.namespace) (sym p);
              same_name = ap (λ j. j.metadata.name) (sym p);
              same_uid = ap (λ j. j.metadata.uid) (sym p);
              same_spec = ap (λ j. j.spec) (sym p);
            },
            ap (λ j. j.status.account_id) (sym p),
            t,
          )))
          λ _.
            Ensures-bind (λ _. Doomed env a)
              (Ensures-on_error (λ _. Careful) _ stores_revoking (λ x s h. h))
              λ _.
                Ensures-bind (λ _. Emptied) (delete_owned-AreGone env a secrets deleting)
                  λ _.
                    Ensures-bind (λ b s. (b.status.account_id ≡ a.status.account_id) × Emptied s)
                      (Ensures-loosen Ensures-object
                        (λ b s h. (ap (λ j. j.status.account_id) h.1 ∙ sym h.0.0.1, h.0)))
                      λ b. Ensures-given λ same.
                        Ensures-bind (λ _. Revoked)
                          (Ensures-when _
                            (λ e. revokes (λ z.
                              let z' = same ∙ z in ground (arith, eq_iff b.status.account_id "")))
                            (λ e s h. (
                              h,
                              inl (
                                  sym same ∙ (eq_iff b.status.account_id "").0 (ground (arith, e))),
                            )))
                          λ _.
                            Ensures-bind (λ _. Marked) (Ensures-modify _ marks)
                              λ _. Ensures-on_error (λ _. Careful) _ stores_mark (λ x s h. h)
