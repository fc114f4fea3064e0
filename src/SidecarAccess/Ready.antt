-- ===== src/SidecarAccess/Ready.antt =====
-- sidecar/pkg/reconciler/bucketaccess.go: what the validation of the Buckets lets through.
use container_object_storage.Prelude.{
  ◌≡◌, ◌≢◌, ◌↔◌, refl, sym, ap, ◌∙◌, subst, String, false, none, List, [], ◌∷◌, ◌++◌, append-nil,
  append_assoc, All, arith, eq_iff, Option-cases, inl, inr,
}
use container_object_storage.Errors.{Error, Result, ok, err, error_of}
use container_object_storage.Api.Meta.{
  bucket_claim_being_deleted_annotation, has_annotation, is_deleting,
}
use container_object_storage.Api.Bucket.{Bucket}
use container_object_storage.Api.Access.{BucketAccess, AccessedBucket}
use container_object_storage.World.{Env, Call, History, get_bucket}
use container_object_storage.World.Recorded.{Recorded}
use container_object_storage.World.Action.{State}
use container_object_storage.World.Ensures.{
  Ensures, Ensures-bind, Ensures-pure, Ensures-call, Ensures-check, Ensures-try, Ensures-weaken,
  Ensures-given, Ensures-loosen, Ensures-object,
}
use container_object_storage.World.Ensures.Loop.{Ensures-range}
use container_object_storage.Errors.Laws.{append_ne_nil, error_of-none}
use container_object_storage.SidecarAccess.Buckets.{
  validate_bucket_is_ready_for_access, collect_bucket_error, get_and_validate_bucket,
  get_and_validate_all_accessed_buckets,
}
use container_object_storage.SidecarAccess.Evidence.{AreReady, IsCareful, Held, Held-later}

-- A Bucket is accepted exactly when its claim is not being deleted, it is itself not being deleted, and
-- it has the expected ID, which is not empty.
pub validate_bucket_is_ready_for_access_iff :
    (b : Bucket) (id : String)
    → (validate_bucket_is_ready_for_access b id ≡ none) ↔ (
        (has_annotation bucket_claim_being_deleted_annotation b.metadata ≡ false)
        × (is_deleting b.metadata ≡ false)
        × (b.status.bucket_id ≡ id)
        × (id ≢ ""))
unfolding validate_bucket_is_ready_for_access error_of
validate_bucket_is_ready_for_access_iff b id = (
  λ h. ground (arith, eq_iff b.status.bucket_id "", eq_iff b.status.bucket_id id),
  λ h. ground (arith, eq_iff b.status.bucket_id "", eq_iff b.status.bucket_id id),
)

pub All-append {ℓ κ} :
    {A : Type ℓ} (P : A → Type κ) (xs : List A) (x : A) → All P xs → P x → All P (xs ++ x ∷ [])
All-append P [] x h p = (p, tt)
All-append P (y ∷ xs) x h p = (h.0, All-append P xs x h.1 p)

pub All-map {ℓ κ} :
    {A : Type ℓ} {P Q : A → Type κ} → ((x : A) → P x → Q x) → (xs : List A) → All P xs → All Q xs
All-map f [] h = tt
All-map f (x ∷ xs) h = (f x h.0, All-map f xs h.1)

-- The Bucket was answered, ready for access and with its bucket ID.
abbrev IsReady : History → AccessedBucket → Type 0
IsReady h ab =
    (b : Bucket) × Recorded (get_bucket ab.bucket_name (ok b)) h
    × (validate_bucket_is_ready_for_access b ab.bucket_id ≡ none)

module _ (env : Env) (a : BucketAccess) where
  -- All before what is left are ready.
  abbrev IsReadyUpTo : List AccessedBucket → History → Type 0
  IsReadyUpTo rest h =
      (done : List AccessedBucket) × (a.status.accessed_buckets ≡ done ++ rest)
      × All (IsReady h) done

  abbrev Validating : List AccessedBucket → List Error → State BucketAccess → Type 0
  Validating rest errs s = Held env a s × (errs ≡ [] → IsReadyUpTo rest s.history)

  pub AreReady-later : (x : Call) (h : History) → AreReady env a h → AreReady env a (x ∷ h)
  AreReady-later x h k = All-map (λ ab (b, p, q). (b, inr p, q)) a.status.accessed_buckets k

  validated-next :
      (ab : AccessedBucket) (rest : List AccessedBucket) (r : Result Bucket) (errs : List Error)
      (h : History)
      → Recorded (get_bucket ab.bucket_name r) h
      → (errs ≡ [] → IsReadyUpTo (ab ∷ rest) h)
      → collect_bucket_error env ab r errs ≡ []
      → IsReadyUpTo rest h
  unfolding collect_bucket_error
  validated-next ab rest (ok b) errs h p k e =
      elim (Option-cases (validate_bucket_is_ready_for_access b ab.bucket_id)) [
        | inl t ↦
            let (done, q, g) = k (rw t at e) in
            (
              done ++ ab ∷ [],
              q ∙ sym (append_assoc done (ab ∷ []) rest),
              All-append _ done ab g (b, p, t),
            )
        | inr (x, t) ↦ absurd (append_ne_nil errs _ (rw t at e))
      ]
  validated-next ab rest (err x) errs h p k e = absurd (append_ne_nil errs _ e)

  get_and_validate-Validating :
      (ab : AccessedBucket) (rest : List AccessedBucket) (errs : List Error)
      → Ensures
          (Validating (ab ∷ rest) errs)
          (get_and_validate_bucket env ab errs)
          (Validating rest)
          (λ _ s. IsCareful env a s.history)
  unfolding get_and_validate_bucket
  get_and_validate-Validating ab rest errs =
      Ensures-bind
        (λ r s. Validating (ab ∷ rest) errs s × Recorded (get_bucket ab.bucket_name r) s.history)
        (Ensures-try _ (Ensures-call _ _ (λ b s h e. next s h _) (λ x s h e. next s h _)))
        λ r. Ensures-pure _ (λ s h. (h.0.0, validated-next ab rest r errs s.history h.1 h.0.1))
    where
      next :
          (s : State BucketAccess)
          → Validating (ab ∷ rest) errs s
          → (r : Result Bucket)
          → Validating
              (ab ∷ rest)
              errs
              (record s { history = get_bucket ab.bucket_name r ∷ s.history })
            × Recorded (get_bucket ab.bucket_name r) (get_bucket ab.bucket_name r ∷ s.history)
      next s (h, k) r = (
        (
          Held-later env a _ s h h.2,
          λ z. let (done, q, g) = k z in (done, q, All-map (λ x (b, p, t). (b, inr p, t)) done g),
        ),
        inl refl,
      )

  pub get_and_validate-AreReady :
      Ensures
        (Held env a)
        (get_and_validate_all_accessed_buckets env)
        (λ _ s. Held env a s × AreReady env a s.history)
        (λ _ s. IsCareful env a s.history)
  unfolding get_and_validate_all_accessed_buckets
  get_and_validate-AreReady =
      Ensures-bind (λ b s. (b.status.accessed_buckets ≡ a.status.accessed_buckets) × Held env a s)
        (Ensures-loosen Ensures-object
          (λ b s h. (ap (λ i. i.accessed_buckets) (ap (λ i. i.status) h.1 ∙ sym h.0.0.1), h.0)))
        λ b. Ensures-given λ p.
          Ensures-bind (Validating [])
            (Ensures-weaken
              (Ensures-range Validating (get_and_validate_bucket env) get_and_validate-Validating
                b.status.accessed_buckets [])
              (λ s h. (h, λ z. ([], sym p, tt))))
            λ errs.
              Ensures-check _
                (λ e s (h, k).
                  let (done, q, g) = k (error_of-none _ errs e) in
                  (h, subst (All (IsReady s.history)) (sym (q ∙ append-nil done)) g))
                (λ x e s h. h.0.2)
