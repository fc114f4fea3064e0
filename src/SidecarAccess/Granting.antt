-- ===== src/SidecarAccess/Granting.antt =====
-- sidecar/pkg/reconciler/bucketaccess.go: the reconcile of a BucketAccess that is not being deleted.
use container_object_storage.Prelude.{
  ◌≡◌, refl, sym, ap, ◌∙◌, subst, All, Option, false, none, some, inl, inr,
}
use Prim.Native.String.{◌++◌ as append}
use container_object_storage.Errors.{Error, ok}
use container_object_storage.Api.Meta.{is_deleting}
use container_object_storage.Api.Access.{BucketAccess}
use container_object_storage.Rpc.{DriverGrantBucketAccessRequest, DriverGrantBucketAccessResponse}
use container_object_storage.Runtime.{IsLawful}
use container_object_storage.World.{
  Env, History, driver_grant_bucket_access, update_bucket_access_status,
}
use container_object_storage.World.Recorded.{Recorded}
use container_object_storage.World.Action.{State, object}
use container_object_storage.World.Accesses.{update_access_status}
use container_object_storage.World.Accesses.Protection.{KeepsAccesses, Fresh, protect-Kept}
use container_object_storage.World.Ensures.Steps.{Ensures-lifted, Ensures-checked}
use container_object_storage.World.Ensures.{
  Ensures, Ensures-bind, Ensures-on_error, Ensures-call, Ensures-object, Ensures-set_object,
  Ensures-modify, Ensures-given, Ensures-loosen,
}
use container_object_storage.SidecarBucket.{non_retryable_option}
use container_object_storage.SidecarAccess.Config.{
  InternalGrantAccessConfig, generate_internal_accessed_bucket_configs,
}
use container_object_storage.SidecarAccess.Granted.{
  GrantedAccessApiDetails, translate_driver_grant_bucket_access_response_to_api,
  validate_granted_access,
}
use container_object_storage.SidecarAccess.Storing.{IsStoredFor, update_secrets-stores}
use container_object_storage.SidecarAccess.Answer.{
  new_internal_grant_access_config-fields, translate-account_id,
}
use container_object_storage.SidecarAccess.Evidence.{
  KeepsSecrets, AreOwned, AreReady, IsCareful, Held, Held-later,
}
use container_object_storage.SidecarAccess.Ownership.{reserve-IsOwned}
use container_object_storage.SidecarAccess.Ready.{AreReady-later, get_and_validate-AreReady}
use container_object_storage.SidecarAccess.{
  grant_request, granted_status, driver_grant_access, grant, provision_access,
}
use container_object_storage.Protocol.{api_to_rpc}
use container_object_storage.SidecarAccess.Grant.{expected_of, IsGrantedFrom, IsGranted}
use container_object_storage.SidecarAccess.Grant.Accepted.{IsKnown, api_to_rpc-IsKnown}
use container_object_storage.SidecarAccess.Grant.Served.{
  credentials-AreCredentials, references-AreAskedFor, response-AreAnswers, request-AreServed,
}

generate-same :
    (a b : BucketAccess)
    → b.spec ≡ a.spec
    → b.status ≡ a.status
    → generate_internal_accessed_bucket_configs b ≡ generate_internal_accessed_bucket_configs a
unfolding generate_internal_accessed_bucket_configs
generate-same a b p q = rw p (rw q refl)

module _ (env : Env) (a : BucketAccess) (l : IsLawful env.runtime) (keeps : KeepsAccesses env)
    (secrets : KeepsSecrets env) (living : is_deleting a.metadata ≡ false) where
  abbrev Careful : State BucketAccess → Type 0
  Careful s = IsCareful env a s.history

  abbrev Prepared : State BucketAccess → Type 0
  Prepared s = Held env a s × AreReady env a s.history

  abbrev Answered :
      DriverGrantBucketAccessRequest → DriverGrantBucketAccessResponse → History → Type 0
  Answered q r h = Recorded (driver_grant_bucket_access q (ok r)) h

  abbrev Granted : State BucketAccess → Type 0
  Granted s = IsGranted a s.history × Careful s

  stores-Granted :
      Ensures
        (λ s. IsGrantedFrom a s.history s.object × Careful s)
        (update_access_status env)
        (λ _. Granted)
        (λ _. Careful)
  unfolding update_access_status
  stores-Granted = Ensures-bind _ Ensures-object λ b.
      Ensures-bind (λ _. Granted)
        (Ensures-call (update_bucket_access_status b) _ (λ c s ((i, t), q) e. (rw q i, t))
          (λ x s ((i, t), q) e. t))
        λ c. Ensures-set_object c (λ s h. h)

  calls_driver :
      (cfg : InternalGrantAccessConfig)
      → cfg.account_name ≡ append "ba-" a.metadata.uid
      → Ensures Prepared
          (driver_grant_access env cfg)
          (λ r s. Held env a s × Answered (grant_request cfg) r s.history)
          (λ _. Careful)
  unfolding driver_grant_access
  calls_driver cfg p =
      Ensures-on_error (λ _. Careful) _
        (Ensures-call _ _
          (λ r s (h, g) e. (Held-later env a _ s h (living, p, h.1, g, h.2), inl refl))
          (λ x s (h, g) e. (living, p, h.1, g, h.2)))
        (λ e s h. h)

  completes :
      (cfg : InternalGrantAccessConfig) (r : DriverGrantBucketAccessResponse)
      (d : GrantedAccessApiDetails)
      → generate_internal_accessed_bucket_configs a ≡ ok cfg.access_configs_by_bucket_id
      → IsKnown a.spec.protocol
      → translate_driver_grant_bucket_access_response_to_api r (expected_of a) ≡ ok d
      → validate_granted_access cfg d ≡ none
      → (s : State BucketAccess)
      → (Held env a s × Answered (grant_request cfg) r s.history)
        × All (IsStoredFor cfg d s.history) d.bucket_info_by_bucket_id
      → IsGrantedFrom a s.history (granted_status d.account_id s.object) × Careful s
  completes cfg r d is_config known is_translated is_valid s ((((t, st), _, c), g), are_stored) =
      let (p, n) = translate-account_id r (expected_of a) d is_translated in
      (
        record {
          same_access = record {
            same_namespace = t.same_namespace;
            same_name = t.same_name;
            same_uid = t.same_uid;
            same_spec = t.same_spec;
          };
          is_ready = refl;
          no_error = refl;
          request = grant_request cfg;
          response = r;
          is_granted = g;
          same_account = p;
          has_account = λ e. n (sym p ∙ e);
          credentials = d.shared_credential_info;
          are_credentials =
              credentials-AreCredentials a cfg r d is_config known is_translated is_valid;
          are_asked_for = references-AreAskedFor a cfg r d is_config known is_translated is_valid;
          are_answers = response-AreAnswers a cfg r d is_config known is_translated is_valid;
          are_served =
              request-AreServed a cfg r d is_config known is_translated is_valid s.history
                are_stored;
        },
        c,
      )

  -- The object is the BucketAccess with the spec and the status that were read.
  abbrev IsUnchanged : BucketAccess → Type 0
  IsUnchanged b = (b.metadata.uid ≡ a.metadata.uid) × (b.spec ≡ a.spec) × (b.status ≡ a.status)

  reads-IsUnchanged : Ensures Prepared object (λ b s. IsUnchanged b × Prepared s) (λ _. Careful)
  reads-IsUnchanged = Ensures-loosen Ensures-object (λ b s h.
      let t = h.0.0.0.0 in
      (
        (
          ap (λ j. j.metadata.uid) h.1 ∙ sym t.same_uid,
          ap (λ j. j.spec) h.1 ∙ sym t.same_spec,
          ap (λ j. j.status) h.1 ∙ sym h.0.0.0.1,
        ),
        h.0,
      ))

  grant-Granted :
      (cfg : InternalGrantAccessConfig)
      → cfg.account_name ≡ append "ba-" a.metadata.uid
      → generate_internal_accessed_bucket_configs a ≡ ok cfg.access_configs_by_bucket_id
      → IsKnown a.spec.protocol
      → AreOwned env a cfg.secrets_by_name
      → Ensures Prepared (grant env cfg) (λ _. Granted) (λ _. Careful)
  unfolding grant
  grant-Granted cfg p is_config known g = Ensures-bind _ reads-IsUnchanged λ b.
      Ensures-given λ (_, spec, status). Ensures-bind _ (calls_driver cfg p) λ r.
        Ensures-lifted _ _ (λ s h. h.0.2)
          λ d translated.
            Ensures-checked _ (λ s h. h.0.2)
              λ valid.
                Ensures-bind _
                  (update_secrets-stores cfg d env a l secrets living
                    (Answered (grant_request cfg) r) (λ x h k. inr k) g)
                  λ _.
                    Ensures-bind (λ _ s. IsGrantedFrom a s.history s.object × Careful s)
                      (Ensures-modify _ (
                        completes cfg r d is_config known
                          (subst
                            (λ v. translate_driver_grant_bucket_access_response_to_api r v ≡ ok d)
                            (expected-same b spec status) translated)
                          (error_of_option _ valid)))
                      λ _. Ensures-on_error (λ _. Careful) _ stores-Granted (λ e s h. h)
    where
      expected-same :
          (b : BucketAccess) → b.spec ≡ a.spec → b.status ≡ a.status → expected_of b ≡ expected_of a
      expected-same b p q = rw p (rw q refl)

      error_of_option : (e : Option Error) → non_retryable_option e ≡ none → e ≡ none
      error_of_option none h = refl
      error_of_option (some x) h = cc

  pub provision-Granted :
      Ensures
        (Fresh env a (IsCareful env a) (λ b r h t. t))
        (provision_access env)
        (λ _. Granted)
        (λ _. Careful)
  unfolding provision_access
  provision-Granted =
      Ensures-bind (λ _. Fresh env a (IsCareful env a) (λ b r h t. t))
        (Ensures-loosen Ensures-object (λ f s h. h.0))
        λ f.
          Ensures-lifted _ _ (λ s h. h.1)
            λ i present.
              Ensures-checked _ (λ s h. h.1)
                λ initialized.
                  Ensures-bind (λ _. Held env a)
                    (protect-Kept env a (IsCareful env a) (λ b r h t. t) l keeps)
                    λ _.
                      Ensures-bind (λ _. Prepared) (get_and_validate-AreReady env a)
                        λ _.
                          Ensures-bind (λ m s. AreOwned env a m × Prepared s)
                            (reserve-IsOwned env a l secrets living (AreReady env a)
                              (AreReady-later env a))
                            λ m. Ensures-given λ owned. Ensures-bind _ reads-IsUnchanged λ b.
                              Ensures-given λ (uid, spec, status).
                                Ensures-lifted _ _ (λ s h. h.0.2)
                                  λ cfg e.
                                    let (name, same, configs, proto) =
                                      new_internal_grant_access_config-fields b m cfg e in
                                    grant-Granted cfg (name ∙ ap (append "ba-") uid)
                                      (sym (generate-same a b spec status) ∙ configs)
                                      (api_to_rpc-IsKnown a.spec.protocol proto.0
                                        (ap (λ j. api_to_rpc j.protocol) (sym spec) ∙ proto.1))
                                      (rw same owned)
