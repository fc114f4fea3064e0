-- ===== src/AccessController/Ready.antt =====
-- bucketaccess.go of the Controller: what the checks of the claims and their Buckets let through.
use container_object_storage.Prelude.{
  append-nil, append_assoc, ◌≡◌, ◌≢◌, ◌⊎◌, ◌∙◌, ap, subst, inl, inr, refl, sym, String, Bool, true,
  false, not, ◌&&◌, Option, none, some, List, [], ◌∷◌, ◌++◌, ◌==◌, arith, All, dict_get, contains,
  deref, is_empty, Bool-cases, eq_iff,
}
use container_object_storage.Errors.{Arg, Result-cases, ok}
use container_object_storage.Errors.Laws.{append_eq_nil}
use container_object_storage.Api.Meta.{is_deleting}
use container_object_storage.Api.Bucket.{Bucket, BucketClaim}
use container_object_storage.Api.Access.{BucketClaimAccess, BucketAccessSpec, AccessedBucket}
use container_object_storage.AccessController.Marks.{Claims}
use container_object_storage.AccessController.Lookup.{
  Buckets, message_if, blockers_of, cannot_access_bucket_claims, wait_for_bucket, wait_for_claim,
  waiting_on_bucket_claims, accessed_bucket, compile_bucket, and_then, compile_buckets, compiled,
  compile_accessed_buckets,
}

message_if-nil : (b : Bool) (m : Arg) → message_if b m ≡ [] → b ≡ false
unfolding message_if
message_if-nil true m e = cc
message_if-nil false m e = refl

-- The claim does not stand in the way of an access with the spec.
abbrev pub IsUsable : BucketAccessSpec → BucketClaim → Type 0
IsUsable spec c =
    (is_deleting c.metadata ≡ false)
    × (c.status.protocols ≢ [] → contains c.status.protocols spec.protocol ≡ true)

supported :
    (ps : List String) (p : String)
    → (not (is_empty ps) && not (contains ps p)) ≡ false
    → ps ≢ []
    → contains ps p ≡ true
supported [] p h n = absurd (n refl)
supported (q ∷ ps) p h n = ground (arith, h)

blockers-IsUsable :
    (name : String) (spec : BucketAccessSpec) (v : Option BucketClaim)
    → blockers_of name spec v ≡ []
    → (c : BucketClaim) → v ≡ some c
    → IsUsable spec c
unfolding blockers_of
blockers-IsUsable name spec none h c e = cc
blockers-IsUsable name spec (some d) h c e =
    let e' : d ≡ c = cc in
    let (p, q) = append_eq_nil _ _ h in
    rw (← e')
      (message_if-nil _ _ p, supported d.status.protocols spec.protocol (message_if-nil _ _ q))

pub cannot_access-IsUsable :
    (claims : Claims) (spec : BucketAccessSpec)
    → cannot_access_bucket_claims claims spec ≡ []
    → All (λ e. (c : BucketClaim) → e.1 ≡ some c → IsUsable spec c) claims
unfolding cannot_access_bucket_claims
cannot_access-IsUsable [] spec h = tt
cannot_access-IsUsable ((n, v) ∷ claims) spec h =
    let (p, q) = append_eq_nil _ _ h in
    (blockers-IsUsable n spec v p, cannot_access-IsUsable claims spec q)

-- The claim exists, and is bound and ready.
abbrev pub IsReady : Option BucketClaim → Type 0
IsReady v = (c : BucketClaim) × (v ≡ some c) × (deref c.status.ready_to_use false ≡ true)

wait_for_bucket-ready :
    (n : String) (c : BucketClaim) (b : Option (Option Bucket))
    → wait_for_bucket n c b ≡ []
    → deref c.status.ready_to_use false ≡ true
unfolding wait_for_bucket
wait_for_bucket-ready n c none h = cc
wait_for_bucket-ready n c (some none) h = cc
wait_for_bucket-ready n c (some (some b)) h = ground (arith, h)

wait_for_claim-IsReady :
    (n : String) (m : Buckets) (v : Option BucketClaim) → wait_for_claim n m v ≡ [] → IsReady v
unfolding wait_for_claim
wait_for_claim-IsReady n m none h = cc
wait_for_claim-IsReady n m (some c) h = (
  c,
  refl,
  elim (Bool-cases (c.status.bound_bucket_name == "")) [
    | inl t ↦ let q = rw t at h in cc
    | inr t ↦ wait_for_bucket-ready n c (dict_get m n) (rw t at h)
  ],
)

pub waiting_on-IsReady :
    (claims : Claims) (m : Buckets)
    → waiting_on_bucket_claims claims m ≡ []
    → All (λ e. IsReady e.1) claims
unfolding waiting_on_bucket_claims
waiting_on-IsReady [] m h = tt
waiting_on-IsReady ((n, v) ∷ claims) m h =
    let (p, q) = append_eq_nil _ _ h in
    (wait_for_claim-IsReady n m v p, waiting_on-IsReady claims m q)

-- The entry is of the Bucket in the map at the claim's name, which has an ID.
abbrev pub IsEntryOf : Buckets → BucketClaimAccess → AccessedBucket → Type 0
IsEntryOf m ref x =
    (b : Bucket) × (dict_get m ref.bucket_claim_name ≡ some (some b))
    × (b.status.bucket_id ≢ "")
    × (x ≡ accessed_bucket ref b)

abbrev pub AreEntriesOf : Buckets → List BucketClaimAccess → List AccessedBucket → Type 0
AreEntriesOf m [] [] = Unit
AreEntriesOf m (r ∷ rs) (x ∷ xs) = IsEntryOf m r x × AreEntriesOf m rs xs
AreEntriesOf m _ _ = ⊥

compile_bucket-cases :
    (ref : BucketClaimAccess) (o : Option (Option Bucket)) (out : List AccessedBucket)
    (ms : List String) (v : List AccessedBucket × List String)
    → compile_bucket ref o (out, ms) ≡ ok v
    → ((b : Bucket) × (o ≡ some (some b))
        × (b.status.bucket_id ≢ "")
        × (v ≡ (out ++ accessed_bucket ref b ∷ [], ms)))
      ⊎ (v ≡ (out, ms ++ ref.bucket_claim_name ∷ []))
unfolding compile_bucket
compile_bucket-cases ref none out ms v h = cc
compile_bucket-cases ref (some none) out ms v h = cc
compile_bucket-cases ref (some (some b)) out ms v h = elim (Bool-cases (b.status.bucket_id == "")) [
  | inl t ↦ let q = rw t at h in inr cc
  | inr t ↦
      let q = rw t at h in
      inl (b, refl, (λ z. let z' = (eq_iff b.status.bucket_id "").1 z in cc), cc)
]

-- What is missing stays missing.
missing_stays :
    (refs : List BucketClaimAccess) (m : Buckets) (v : List AccessedBucket × List String)
    (out : List AccessedBucket)
    → compile_buckets refs m v ≡ ok (out, [])
    → v.1 ≡ []
unfolding compile_buckets and_then
missing_stays [] m v out h = cc
missing_stays (r ∷ rs) m (o, ms) out h =
    elim (Result-cases (compile_bucket r (dict_get m r.bucket_claim_name) (o, ms))) [
      | inl (w, p) ↦
          let q = missing_stays rs m w out (rw p at h) in
          elim (compile_bucket-cases r (dict_get m r.bucket_claim_name) o ms w p) [
            | inl (b, x, y, z) ↦ let z' = ap (λ i. i.1) z in cc
            | inr z ↦ let z' = ap (λ i. i.1) z in (append_eq_nil ms _ (sym z' ∙ q)).0
          ]
      | inr (e, p) ↦ let q = rw p at h in cc
    ]

compile_buckets-AreEntriesOf :
    (refs : List BucketClaimAccess) (m : Buckets) (o out : List AccessedBucket)
    → compile_buckets refs m (o, []) ≡ ok (out, [])
    → (xs : List AccessedBucket) × (out ≡ o ++ xs) × AreEntriesOf m refs xs
unfolding compile_buckets and_then
compile_buckets-AreEntriesOf [] m o out h = let e : out ≡ o = cc in ([], e ∙ sym (append-nil o), tt)
compile_buckets-AreEntriesOf (r ∷ rs) m o out h =
    elim (Result-cases (compile_bucket r (dict_get m r.bucket_claim_name) (o, []))) [
      | inl (w, p) ↦
          let h' = rw p at h in
          elim (compile_bucket-cases r (dict_get m r.bucket_claim_name) o [] w p) [
            | inl (b, x, y, z) ↦
                let (xs, q, es) = compile_buckets-AreEntriesOf rs m _ out (rw z at h') in
                (
                  accessed_bucket r b ∷ xs,
                  q ∙ append_assoc o (accessed_bucket r b ∷ []) xs,
                  ((b, x, y, refl), es),
                )
            | inr z ↦ let q = missing_stays rs m w out h' in let z' = ap (λ i. i.1) z in cc
          ]
      | inr (e, p) ↦ let q = rw p at h in cc
    ]

pub compile_accessed_buckets-AreEntriesOf :
    (refs : List BucketClaimAccess) (m : Buckets) (xs : List AccessedBucket)
    → compile_accessed_buckets refs m ≡ ok xs
    → AreEntriesOf m refs xs
unfolding compile_accessed_buckets compiled
compile_accessed_buckets-AreEntriesOf refs m xs h =
    elim (Result-cases (compile_buckets refs m ([], []))) [
      | inl ((out, []), p) ↦
          let (ys, q, es) = compile_buckets-AreEntriesOf refs m [] out p in
          let r = rw p at h in let e : ys ≡ xs = cc in subst (AreEntriesOf m refs) e es
      | inl ((out, m0 ∷ ms), p) ↦ let r = rw p at h in cc
      | inr (e, p) ↦ let r = rw p at h in cc
    ]
