-- ===== src/AccessController/Finding.antt =====
-- bucketaccess.go of the Controller: the loop that reads the Buckets of the claims.
use container_object_storage.Prelude.{
  ◌≡◌, inl, inr, ap, subst, String, Option, none, some, List, [], ◌∷◌, ◌==◌, arith, eq_iff,
  Bool-cases, All, HasUniqueKeys, Entries-dict_get, dict_get, dict_set, dict_get-dict_set,
}
use container_object_storage.Errors.{Error, ok}
use container_object_storage.Api.Bucket.{Bucket, BucketClaim}
use container_object_storage.Api.Access.{BucketAccess, BucketClaimAccess}
use container_object_storage.World.{Env, Call, History, get_bucket}
use container_object_storage.World.Recorded.{Recorded}
use container_object_storage.World.Action.{State}
use container_object_storage.World.Ensures.Steps.{Ensures-checked}
use container_object_storage.World.Ensures.{
  Ensures, Ensures-bind, Ensures-pure, Ensures-branch, Ensures-call, Ensures-try, Ensures-weaken,
}
use container_object_storage.World.Ensures.Loop.{Ensures-range}
use container_object_storage.AccessController.Marks.{Claims}
use container_object_storage.AccessController.Lookup.{
  Buckets, collect_bucket, get_bucket_for_claim, get_buckets_for_claims,
}
use container_object_storage.AccessController.Gather.{Base, Tidy, later}
use container_object_storage.AccessController.Marking.{AreClaimed, AreClaimed-later}

-- A Bucket in the map is the one that the claim of the same name is bound to, as it was read.
abbrev pub AreBuckets : Claims → Buckets → History → Type 0
AreBuckets claims m h =
    (n : String) (b : Bucket)
    → dict_get m n ≡ some (some b)
    → (c : BucketClaim) × (dict_get claims n ≡ some (some c))
      × Recorded (get_bucket c.status.bound_bucket_name (ok b)) h

AreBuckets-later :
    (x : Call) (claims : Claims) (m : Buckets) (h : History)
    → AreBuckets claims m h
    → AreBuckets claims m (x ∷ h)
AreBuckets-later x claims m h g = λ n b e. let (c, p, q) = g n b e in (c, p, inr q)

AreBuckets-none :
    (claims : Claims) (m : Buckets) (k : String) (h : History)
    → AreBuckets claims m h
    → AreBuckets claims (dict_set m k none) h
AreBuckets-none claims m k h g =
    λ n b e. g n b (ground (arith, eq_iff k n, dict_get-dict_set m k n none))

AreBuckets-some :
    (claims : Claims) (m : Buckets) (k : String) (c : BucketClaim) (b : Bucket) (h : History)
    → dict_get claims k ≡ some (some c)
    → AreBuckets claims m h
    → AreBuckets claims (dict_set m k (some b)) (get_bucket c.status.bound_bucket_name (ok b) ∷ h)
AreBuckets-some claims m k c b h r g = λ n d e. elim (Bool-cases (k == n)) [
  | inl t ↦
      let q : some (some b) ≡ some (some d) = ground (arith, dict_get-dict_set m k n (some b)) in
      let q' : d ≡ b = cc in
      (
        c,
        subst (λ i. dict_get claims i ≡ some (some c)) ((eq_iff k n).0 t) r,
        inl (ap (λ i. get_bucket c.status.bound_bucket_name (ok i)) q'),
      )
  | inr t ↦
      let (x, p, q) = g n d (ground (arith, dict_get-dict_set m k n (some b))) in (x, p, inr q)
]

module _ (env : Env) (a : BucketAccess) (refs : List BucketClaimAccess) (claims : Claims)
    (Kept : State BucketAccess → Type 0)
    (kept : (x : Call) (s : State BucketAccess)
      → Kept s
      → Kept (record s { history = x ∷ s.history })) where
  abbrev Finding : Claims → Buckets × List Error → State BucketAccess → Type 0
  Finding rest v s =
      Kept s
      × Base env a s
      × AreClaimed a refs claims s.history
      × All (λ e. dict_get claims e.0 ≡ some e.1) rest
      × AreBuckets claims v.0 s.history

  get_bucket-Finding :
      (e : String × Option BucketClaim) (rest : Claims) (v : Buckets × List Error)
      → Ensures
          (Finding (e ∷ rest) v)
          (get_bucket_for_claim env e v)
          (Finding rest)
          (λ _. Tidy env a)
  unfolding get_bucket_for_claim collect_bucket
  get_bucket-Finding (n, none) rest (m, errs) =
      Ensures-pure _ (λ s (f, b, k, g, z). (f, b, k, g.1, AreBuckets-none claims m n s.history z))
  get_bucket-Finding (n, some c) rest (m, errs) =
      Ensures-branch _
        (λ _.
          Ensures-pure _
            (λ s (f, b, k, g, z). (f, b, k, g.1, AreBuckets-none claims m n s.history z)))
        λ _.
          Ensures-bind
            (λ r s. Finding rest (collect_bucket env n c.status.bound_bucket_name r (m, errs)) s)
            (Ensures-try _ (
              Ensures-call _ _
                (λ d s (f, b, k, g, z) e. (
                  kept _ s f,
                  later env a _ s b b.2,
                  AreClaimed-later a _ refs claims s.history k,
                  g.1,
                  AreBuckets-some claims m n c d s.history g.0 z,
                ))
                (λ x s (f, b, k, g, z) e. (
                  kept _ s f,
                  later env a _ s b b.2,
                  AreClaimed-later a _ refs claims s.history k,
                  g.1,
                  AreBuckets-later _ claims m s.history z,
                ))))
            λ r. Ensures-pure _ (λ s h. h)

  pub get_buckets-finds :
      HasUniqueKeys claims
      → Ensures
          (λ s. Kept s × Base env a s × AreClaimed a refs claims s.history)
          (get_buckets_for_claims env claims)
          (λ m s.
            Kept s
            × Base env a s
            × AreClaimed a refs claims s.history
            × AreBuckets claims m s.history)
          (λ _. Tidy env a)
  unfolding get_buckets_for_claims dict_get
  get_buckets-finds u =
      Ensures-bind (Finding [])
        (Ensures-weaken
          (Ensures-range Finding (get_bucket_for_claim env) get_bucket-Finding claims ([], []))
          (λ s (f, b, k). (f, b, k, Entries-dict_get claims u, λ n d e. cc)))
        λ v.
          Ensures-checked _ (λ s h. h.1.2)
            λ got.
              Ensures-checked _ (λ s h. h.1.2)
                λ found. Ensures-pure _ (λ s (f, b, k, g, z). (f, b, k, z))
