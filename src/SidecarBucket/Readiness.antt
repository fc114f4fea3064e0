-- ===== src/SidecarBucket/Readiness.antt =====
-- bucket.go: what a successful reconcile has stored and where it comes from.
use container_object_storage.Prelude.{
  ◌≡◌, ◌≢◌, refl, ap, ◌∙◌, String, Bool, true, false, not, none, some, List, [], ◌∷◌, arith, eq_iff,
  ℕ, ◌==◌, All, contains, Bool-cases, Option-cases, inl, inr,
}
use container_object_storage.Errors.{ok, err}
use container_object_storage.Api.Meta.{is_deleting}
use container_object_storage.Api.Bucket.{Bucket}
use container_object_storage.Rpc.{BucketResponse, ObjectProtocolAndBucketInfo}
use container_object_storage.Translator.{returned_protocols}
use container_object_storage.Translator.Laws.{bucket_info_to_api_unvalidated, variables}
use container_object_storage.Driver.{DriverInfo}
use container_object_storage.World.{
  Env, History, update_bucket_status, driver_create_bucket, driver_get_existing_bucket,
}
use container_object_storage.World.Action.{State, start}
use container_object_storage.World.Ensures.Steps.{Ensures-lifted, Ensures-checked}
use container_object_storage.World.Ensures.{
  Ensures, Ensures-bind, Ensures-pure, Ensures-fail, Ensures-lift, Ensures-branch, Ensures-on_error,
  Ensures-call, Ensures-object, Ensures-set_object, Ensures-modify, Ensures-check, Ensures-weaken,
  Ensures-success, Ensures-nothing,
}
use container_object_storage.SidecarBucket.Provision.{
  DynamicProvisionParams, StaticProvisionParams, ProvisionedBucketDetails, check_response,
  dynamic_provision, static_provision,
}
use container_object_storage.SidecarBucket.Provision.Validation.{
  validate_bucket_supports_protocols_iff,
}
use container_object_storage.SidecarBucket.{
  update_status, provision, finish, provisioning, reconcile, missing_protocols, ready_status,
}

-- The details that are built from a response of the driver.
pub record AreFrom (r : BucketResponse) (d : ProvisionedBucketDetails) : Type 0 where
  pub has_id : r.bucket_id ≢ ""
  pub same_id : d.bucket_id ≡ r.bucket_id
  pub response : ObjectProtocolAndBucketInfo
  pub has_response : r.protocols ≡ some response
  pub same_protocols : d.supported_protos ≡ returned_protocols response
  pub same_info : d.all_proto_bucket_info ≡ variables response

check_response-AreFrom :
    (x y : String) (r : BucketResponse) (d : ProvisionedBucketDetails)
    → check_response x y r ≡ ok d
    → AreFrom r d
unfolding check_response
check_response-AreFrom x y r d h = elim (Bool-cases (r.bucket_id == "")) [
  | inl e ↦ absurd (ground arith)
  | inr e ↦ elim (Option-cases r.protocols) [
    | inl n ↦ absurd (ground arith)
    | inr (p, q) ↦
        let k = rw (e, q, bucket_info_to_api_unvalidated p) at h in
        record {
          has_id = λ z. ground (arith, eq_iff r.bucket_id "");
          same_id = ground arith;
          response = p;
          has_response = q;
          same_protocols = ground arith;
          same_info = ground arith;
        }
  ]
]

-- The Bucket reports that it is ready, has an ID and protocols, and supports all that are required.
pub record IsReady (b : Bucket) : Type 0 where
  pub ready : b.status.ready_to_use ≡ some true
  pub has_id : b.status.bucket_id ≢ ""
  pub has_protocols : b.status.protocols ≢ []
  pub supports : All (λ r. contains b.status.protocols r ≡ true) b.spec.protocols
  pub no_error : b.status.error ≡ none

-- The latest call is an answer of the driver to which the details belong.
abbrev pub IsAnswered : ProvisionedBucketDetails → History → Type 0
IsAnswered d (driver_create_bucket q (ok r) ∷ h) = AreFrom r d
IsAnswered d (driver_get_existing_bucket q (ok r) ∷ h) = AreFrom r d
IsAnswered d _ = ⊥

-- The latest call stored the status of a ready Bucket, made of the driver's answer before it.
abbrev pub IsReadied : History → Type 0
IsReadied (update_bucket_status b (ok c) ∷ h) =
    IsReady b × ((d : ProvisionedBucketDetails) × (b.status ≡ ready_status d) × IsAnswered d h)
IsReadied _ = ⊥

missing_protocols-none :
    (d : ProvisionedBucketDetails) (b : Bucket)
    → missing_protocols d b ≡ none
    → (d.supported_protos ≢ []) × All (λ r. contains d.supported_protos r ≡ true) b.spec.protocols
unfolding missing_protocols
missing_protocols-none d b h =
    let supports = validate_bucket_supports_protocols_iff d.supported_protos b.spec.protocols in
    (λ e. ground arith, supports.0 (ground arith))

IsAnswered-has_id : (d : ProvisionedBucketDetails) (h : History) → IsAnswered d h → d.bucket_id ≢ ""
IsAnswered-has_id d [] p = absurd p
IsAnswered-has_id d (driver_create_bucket q (ok r) ∷ h) p = rw p.same_id p.has_id
IsAnswered-has_id d (driver_create_bucket q (err r) ∷ h) p = absurd p
IsAnswered-has_id d (driver_get_existing_bucket q (ok r) ∷ h) p = rw p.same_id p.has_id
IsAnswered-has_id d (driver_get_existing_bucket q (err r) ∷ h) p = absurd p
IsAnswered-has_id d (_ ∷ h) p = absurd p

abbrev True : State Bucket → Type 0
True s = Unit {0}

-- Whatever details belong to the response, they belong to the latest call.
abbrev IsLatest : BucketResponse → State Bucket → Type 0
IsLatest r s = (d : ProvisionedBucketDetails) → AreFrom r d → IsAnswered d s.history

module _ (env : Env) where
  dynamic-answers :
      (p : DynamicProvisionParams)
      → Ensures True (dynamic_provision env p) (λ d s. IsAnswered d s.history) (λ _. True)
  unfolding dynamic_provision
  dynamic-answers p =
      Ensures-branch _ (λ _. Ensures-fail _ (λ s h. tt))
        λ _.
          Ensures-bind IsLatest
            (Ensures-on_error (λ _. True) _ (Ensures-call _ _ (λ r s h e d a. a) (λ x s h e. tt))
              (λ e s h. tt))
            λ r. Ensures-lift _ (λ d e s h. h d (check_response-AreFrom _ _ r d e)) (λ x e s h. tt)

  static-answers :
      (p : StaticProvisionParams)
      → Ensures True (static_provision env p) (λ d s. IsAnswered d s.history) (λ _. True)
  unfolding static_provision
  static-answers p =
      Ensures-branch _ (λ _. Ensures-fail _ (λ s h. tt))
        λ _.
          Ensures-bind IsLatest
            (Ensures-on_error (λ _. True) _ (Ensures-call _ _ (λ r s h e d a. a) (λ x s h e. tt))
              (λ e s h. tt))
            λ r. Ensures-lift _ (λ d e s h. h d (check_response-AreFrom _ _ r d e)) (λ x e s h. tt)

  provision-answers :
      (b : Bool) (ps : List ℕ)
      → Ensures True (provision env b ps) (λ d s. IsAnswered d s.history) (λ _. True)
  unfolding provision
  provision-answers b ps = Ensures-bind _ Ensures-object λ o.
      Ensures-branch _ (λ _. Ensures-weaken (static-answers _) (λ s h. tt))
        (λ _. Ensures-weaken (dynamic-answers _) (λ s h. tt))

  -- The status that `finish` sends, where the final validation passed.
  abbrev IsSent : ProvisionedBucketDetails → State Bucket → Type 0
  IsSent d s = IsReady s.object × (s.object.status ≡ ready_status d) × IsAnswered d s.history

  finish-readies :
      (d : ProvisionedBucketDetails)
      → Ensures
          (λ s. IsAnswered d s.history)
          (finish env d)
          (λ _ s. IsReadied s.history)
          (λ _. True)
  unfolding finish update_status
  finish-readies d = Ensures-bind _ Ensures-object λ b.
      Ensures-bind (λ _ s. IsAnswered d s.history × (b ≡ s.object) × (missing_protocols d b ≡ none))
        (Ensures-check _ (λ e s h. (h.0, h.1, e)) (λ x e s h. tt))
        λ _.
          Ensures-bind (λ _. IsSent d)
            (Ensures-modify _ (λ s h.
              let m = missing_protocols-none d b h.2 in
              (
                record {
                  ready = refl;
                  has_id = IsAnswered-has_id d s.history h.0;
                  has_protocols = m.0;
                  supports = rw (← h.1) m.1;
                  no_error = refl;
                },
                refl,
                h.0,
              )))
            λ _.
              Ensures-on_error (λ _. True) _
                (Ensures-bind _ Ensures-object λ o.
                  Ensures-bind (λ _ s. IsReadied s.history)
                    (Ensures-call _ _ (λ c s h e. rw h.1 (h.0.0, (d, h.0.1, h.0.2)))
                      (λ x s h e. tt))
                    λ c. Ensures-set_object _ (λ s h. h))
                (λ e s h. tt)

  living : (o b : Bucket) → is_deleting b.metadata ≡ false → o ≡ b → is_deleting o.metadata ≢ true
  living o b d e t = ground (arith, ap (λ (x : Bucket). x.metadata) e)

  module _ (info : DriverInfo) where
    provisioning-readies :
        Ensures True (provisioning env info) (λ _ s. IsReadied s.history) (λ _. True)
    unfolding provisioning
    provisioning-readies = Ensures-bind _ Ensures-object λ b.
        Ensures-lifted _ _ (λ s h. tt)
          λ ps translated.
            Ensures-checked _ (λ s h. tt)
              λ supported.
                Ensures-bind (λ _. True) (Ensures-nothing _)
                  λ _. Ensures-bind _ (provision-answers _ ps) finish-readies

    own_driver :
        (o b : Bucket)
        → b.spec.driver_name ≡ info.name
        → o ≡ b
        → not (o.spec.driver_name == info.name) ≢ true
    own_driver o b n e t =
        ground
          (arith, eq_iff o.spec.driver_name info.name, ap (λ (x : Bucket). x.spec.driver_name) e)

    reconcile-readies :
        (b : Bucket)
        → b.spec.driver_name ≡ info.name
        → is_deleting b.metadata ≡ false
        → Ensures (λ s. s.object ≡ b) (reconcile env info) (λ _ s. IsReadied s.history) (λ _. True)
    unfolding reconcile
    reconcile-readies b n d = Ensures-bind _ Ensures-object λ o.
        Ensures-branch _ (λ t. Ensures-pure _ (λ s h. absurd (own_driver o b n (h.1 ∙ h.0) t)))
          λ _.
            Ensures-branch _ (λ t. record { at = λ s h. absurd (living o b d (h.1 ∙ h.0) t) })
              (λ t. Ensures-weaken provisioning-readies (λ s h. tt))

    -- A reconcile that succeeds on a Bucket of this driver that is not being deleted has, as its last
    -- call, stored the status of a ready Bucket: with an ID, with protocols, among them all that the
    -- Bucket requires, and with no error; and the ID, the protocols and their variables are those of
    -- the driver's answer to the call just before.
    pub reconcile-IsReadied :
        (b : Bucket)
        → b.spec.driver_name ≡ info.name
        → is_deleting b.metadata ≡ false
        → (reconcile env info (start b)).0 ≡ ok tt
        → IsReadied (reconcile env info (start b)).1.history
    reconcile-IsReadied b n d e = Ensures-success (reconcile-readies b n d) (start b) refl e
