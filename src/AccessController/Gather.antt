-- ===== src/AccessController/Gather.antt =====
-- bucketaccess.go of the Controller: the loop that reads the claims.
use container_object_storage.Prelude.{
  ◌≡◌, inl, inr, refl, subst, String, Bool, true, ◌||◌, ◌==◌, Option, none, some, List, [], ◌∷◌,
  arith, eq_iff, Bool-cases, HasUniqueKeys, dict_get, dict_set, dict_has, dict_get-dict_set,
  dict_set-HasUniqueKeys,
}
use container_object_storage.Errors.{Error, Result, ok, err}
use container_object_storage.Errors.Laws.{append_ne_nil, error_of-none}
use container_object_storage.Api.Bucket.{BucketClaim}
use container_object_storage.Api.Access.{BucketAccess, BucketClaimAccess}
use container_object_storage.World.{Env, Call, History, get_bucket_claim}
use container_object_storage.World.Recorded.{Recorded}
use container_object_storage.World.Action.{State}
use container_object_storage.World.Ensures.{
  Ensures, Ensures-bind, Ensures-pure, Ensures-call, Ensures-check, Ensures-try, Ensures-weaken,
}
use container_object_storage.World.Ensures.Loop.{Ensures-range}
use container_object_storage.AccessController.Marks.{
  Claims, has_reference, collect_claim, get_claim, get_all_bucket_claims,
}
use container_object_storage.AccessController.Evidence.{IsRead, IsTidy}
use container_object_storage.World.Accesses.Protection.{IsSameAccess, IsStored, IsStored-later}

pub cover-dict_set :
    (m : Claims) (k n : String) (v : Option BucketClaim) (b : Bool)
    → (dict_has m n || (k == n || b)) ≡ true
    → (dict_has (dict_set m k v) n || b) ≡ true
cover-dict_set m k n v b h = ground (arith, dict_get-dict_set m k n v, eq_iff k n)

-- Every reference has an entry in the map, or is still to come.
abbrev pub Covers : List BucketClaimAccess → Claims → List BucketClaimAccess → Type 0
Covers refs m rest =
    (n : String) → has_reference n refs ≡ true → (dict_has m n || has_reference n rest) ≡ true

-- The claims in the map were read.
abbrev pub AreRead : BucketAccess → Claims → History → Type 0
AreRead a m h = (n : String) (c : BucketClaim) → dict_get m n ≡ some (some c) → IsRead a n c h

module _ (env : Env) (a : BucketAccess) where
  -- The BucketAccess is what it was, its finalizer is stored, and nothing else was changed.
  abbrev pub Base : State BucketAccess → Type 0
  Base s =
      (IsSameAccess a s.object × (a.status ≡ s.object.status))
      × IsStored a env s.history
      × IsTidy a env s.history

  abbrev pub Tidy : State BucketAccess → Type 0
  Tidy s = IsTidy a env s.history

  pub later :
      (x : Call) (s : State BucketAccess)
      → Base s
      → IsTidy a env (x ∷ s.history)
      → Base (record s { history = x ∷ s.history })
  later x s b t = (b.0, IsStored-later a env x s.history b.1, t)

  -- A claim that the map has as missing was answered to be missing.
  abbrev pub AreMissing : Claims → History → Type 0
  AreMissing m h =
      (n : String)
      → dict_get m n ≡ some none
      → (e : Error) × Recorded (get_bucket_claim a.metadata.namespace n (err e)) h
        × (env.is_not_found e ≡ true)

module _ (env : Env) (a : BucketAccess) (Kept Lost : State BucketAccess → Type 0)
    (kept : (x : Call) (n : String) (r : Result BucketClaim) (s : State BucketAccess)
      → x ≡ get_bucket_claim a.metadata.namespace n r
      → Kept s
      → Kept (record s { history = x ∷ s.history }))
    (lost : (s : State BucketAccess) → Kept s → Lost s) where
  abbrev Getting :
      List BucketClaimAccess
      → List BucketClaimAccess
      → Claims × List Error
      → State BucketAccess
      → Type 0
  Getting refs rest v s =
      Kept s
      × HasUniqueKeys v.0
      × AreRead a v.0 s.history
      × AreMissing env a v.0 s.history
      × (v.1 ≡ [] → Covers refs v.0 rest)

  collect_claim-Getting :
      (refs rest : List BucketClaimAccess) (ref : BucketClaimAccess) (r : Result BucketClaim)
      (v : Claims × List Error) (s : State BucketAccess)
      → Getting refs (ref ∷ rest) v s
      → Recorded (get_bucket_claim a.metadata.namespace ref.bucket_claim_name r) s.history
      → Getting refs rest (collect_claim env ref.bucket_claim_name r v) s
  unfolding collect_claim has_reference
  collect_claim-Getting refs rest ref (ok c) (m, errs) s (b, u, g, y, k) h =
      let n0 = ref.bucket_claim_name in
      (
        b,
        dict_set-HasUniqueKeys m n0 (some c) u,
        λ n d e. elim (Bool-cases (n0 == n)) [
          | inl p ↦
              let q : n0 ≡ n = (eq_iff n0 n).0 p in
              let t : some (some c) ≡ some (some d) =
                ground (arith, dict_get-dict_set m n0 n (some c)) in
              let t' : c ≡ d = cc in rw (← q, ← t') h
          | inr p ↦ g n d (ground (arith, dict_get-dict_set m n0 n (some c)))
        ],
        λ n e. elim (Bool-cases (n0 == n)) [
          | inl p ↦
              let t : some (some c) ≡ some none =
                ground (arith, dict_get-dict_set m n0 n (some c)) in
              cc
          | inr p ↦ y n (ground (arith, dict_get-dict_set m n0 n (some c)))
        ],
        λ z n r. cover-dict_set m n0 n (some c) (has_reference n rest) (k z n r),
      )
  collect_claim-Getting refs rest ref (err x) (m, errs) s (b, u, g, y, k) h =
      let n0 = ref.bucket_claim_name in
      elim (Bool-cases (env.is_not_found x)) [
        | inl t ↦ rw t (
          b,
          dict_set-HasUniqueKeys m n0 none u,
          λ n d e. g n d (ground (arith, eq_iff n0 n, dict_get-dict_set m n0 n none)),
          λ n e. elim (Bool-cases (n0 == n)) [
            | inl p ↦ (
              x,
              subst (λ i. Recorded (get_bucket_claim a.metadata.namespace i (err x)) s.history)
                  ((eq_iff n0 n).0 p) h,
              t,
            )
            | inr p ↦ y n (ground (arith, dict_get-dict_set m n0 n none))
          ],
          λ z n r. cover-dict_set m n0 n none (has_reference n rest) (k z n r),
        )
        | inr t ↦ rw t (b, u, g, y, λ z. absurd (append_ne_nil errs x z))
      ]

  Getting-later :
      (refs rest : List BucketClaimAccess) (v : Claims × List Error) (n : String)
      (r : Result BucketClaim) (s : State BucketAccess)
      → Getting refs rest v s
      → Getting refs rest v
          (record s { history = get_bucket_claim a.metadata.namespace n r ∷ s.history })
  Getting-later refs rest v n r s (b, u, g, y, k) = (
    kept _ n r s refl b,
    u,
    λ i c e. inr (g i c e),
    λ i e. let (x, p, q) = y i e in (x, inr p, q),
    k,
  )

  -- What the loop has found out when it is through.
  abbrev pub Gathered : List BucketClaimAccess → Claims → State BucketAccess → Type 0
  Gathered refs m s =
      Kept s
      × HasUniqueKeys m
      × AreRead a m s.history
      × AreMissing env a m s.history
      × Covers refs m []

  pub get_all-gathers :
      (refs : List BucketClaimAccess)
      → Ensures Kept
          (get_all_bucket_claims env a.metadata.namespace refs)
          (Gathered refs)
          (λ _. Lost)
  unfolding get_all_bucket_claims get_claim dict_get
  get_all-gathers refs =
      Ensures-bind (Getting refs [])
        (Ensures-weaken
          (Ensures-range (Getting refs) (get_claim env a.metadata.namespace) step refs ([], []))
          (λ s h. (h, tt, (λ n c e. cc), (λ n e. cc), (λ z n r. r))))
        λ v.
          Ensures-bind (λ _. Gathered refs v.0)
            (Ensures-check _ (λ e s (b, u, g, y, k). (b, u, g, y, k (error_of-none _ v.1 e)))
              (λ x e s h. lost s h.0))
            λ _. Ensures-pure _ (λ s h. h)
    where
      step :
          (ref : BucketClaimAccess) (rest : List BucketClaimAccess) (v : Claims × List Error)
          → Ensures
              (Getting refs (ref ∷ rest) v)
              (get_claim env a.metadata.namespace ref v)
              (Getting refs rest)
              (λ _. Lost)
      step ref rest v =
          Ensures-bind
            (λ r s.
              Getting refs (ref ∷ rest) v s
              × Recorded (get_bucket_claim a.metadata.namespace ref.bucket_claim_name r) s.history)
            (Ensures-try _ (
              Ensures-call _ _ (λ c s h e. (Getting-later refs (ref ∷ rest) v _ _ s h, inl refl))
                (λ x s h e. (Getting-later refs (ref ∷ rest) v _ _ s h, inl refl))))
            λ r. Ensures-pure _ (λ s h. collect_claim-Getting refs rest ref r v s h.0 h.1)
