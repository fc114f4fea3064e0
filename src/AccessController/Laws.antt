-- ===== src/AccessController/Laws.antt =====
-- bucketaccess.go: what the two validations of a BucketAccess accept.
use container_object_storage.Prelude.{
  ℕ, ◌+◌, ◌≤◌, ◌≡◌, ◌≢◌, ◌↔◌, refl, sym, ap, ◌∙◌, String, Bool, not, nat_lt, ◌==◌, ◌&&◌, ◌++◌, true,
  false, none, some, List, [], ◌∷◌, All, arith, eq_iff, length, contains, Dict, dict_get, dict_set,
  dict_get-dict_set, Option-cases, Bool-cases, inl, inr,
}
use container_object_storage.Errors.{Error, error_of, error_if}
use container_object_storage.Api.Access.{
  BucketClaimAccess, BucketAccessSpec, BucketAccessClassSpec, service_account_authentication,
  supports_multi_bucket_access, multiple_buckets,
}
use container_object_storage.AccessController.Validation.{
  count_reference, count_references, validate_all_bucket_claim_references_unique, disallowed_modes,
  validate_access_against_class,
}

-- No BucketClaim is referenced twice.
abbrev pub IsUnique : List BucketClaimAccess → Type 0
IsUnique [] = Unit
IsUnique (r ∷ rs) = All (λ q. q.bucket_claim_name ≢ r.bucket_claim_name) rs × IsUnique rs

-- No reference was counted before.
abbrev AreNew : Dict ℕ → List BucketClaimAccess → Type 0
AreNew m rs = All (λ r. dict_get m r.bucket_claim_name ≡ none) rs

contains-false_iff : (xs : List String) (s : String) → (contains xs s ≡ false) ↔ All (λ x. x ≢ s) xs
unfolding contains
contains-false_iff [] s = (λ h. tt, λ h. refl)
contains-false_iff (x ∷ xs) s =
    let ih = contains-false_iff xs s in
    let e = eq_iff x s in
    elim (Bool-cases (x == s)) [
      | inl t ↦ (λ h. let q = rw t at h in cc, λ h. absurd (h.0 (e.0 t)))
      | inr t ↦ (λ h. ((λ p. let q = e.1 p in cc), ih.0 (rw t at h)), λ h. rw t (ih.1 h.1))
    ]

disallowed_modes_iff :
    (disallowed : List String) (rs : List BucketClaimAccess)
    → (disallowed_modes disallowed rs ≡ []) ↔ All (λ r. All (λ m. m ≢ r.access_mode) disallowed) rs
unfolding disallowed_modes
disallowed_modes_iff disallowed [] = (λ h. tt, λ h. refl)
disallowed_modes_iff disallowed (r ∷ rs) =
    let ih = disallowed_modes_iff disallowed rs in
    let c = contains-false_iff disallowed r.access_mode in
    (λ h. (c.0 (ground arith), ih.0 (ground arith)), λ h. rw (c.1 h.0, ih.1 h.1) refl)

two_errors :
    (a b : Bool) (x y : Error) (es : List Error) (format : String)
    → (error_of format (error_if a x ++ (error_if b y ++ es)) ≡ none)
      ↔ ((a ≡ false) × (b ≡ false) × (es ≡ []))
unfolding error_of
two_errors true b x y es format = (λ h. absurd (ground arith), λ h. cc)
two_errors false true x y es format = (λ h. absurd (ground arith), λ h. cc)
two_errors false false x y [] format = (λ h. (refl, refl, refl), λ h. refl)
two_errors false false x y (e ∷ es) format = (λ h. absurd (ground arith), λ h. cc)

conjunction : (a b : Bool) → (a && b ≡ false) ↔ (a ≡ true → b ≡ false)
conjunction true b = (λ h _. h, λ h. h refl)
conjunction false b = (λ h p. cc, λ h. refl)

few : (n : ℕ) → (nat_lt 1 n ≡ false) ↔ (n ≤ 1)
few n = (λ h. ground arith, λ h. ground arith)

-- A BucketAccess is accepted for its class exactly when a service account is named if the class
-- authenticates by one, at most one BucketClaim is asked for unless the class says MultipleBuckets, and
-- no BucketClaim is asked for in a mode that the class disallows.
pub validate_access_against_class_iff :
    (class : BucketAccessClassSpec) (access : BucketAccessSpec)
    → (validate_access_against_class class access ≡ none) ↔ (
        (class.authentication_type ≡ service_account_authentication
          → access.service_account_name ≢ "")
        × (class.multi_bucket_access ≢ multiple_buckets → length access.bucket_claims ≤ 1)
        × All
            (λ r. All (λ m. m ≢ r.access_mode) class.disallowed_bucket_access_modes)
            access.bucket_claims)
unfolding validate_access_against_class supports_multi_bucket_access
validate_access_against_class_iff class access =
    let ih = disallowed_modes_iff class.disallowed_bucket_access_modes access.bucket_claims in
    let e =
      two_errors _ _ _ _
        (disallowed_modes class.disallowed_bucket_access_modes access.bucket_claims) _ in
    let a = eq_iff class.authentication_type service_account_authentication in
    let n = eq_iff access.service_account_name "" in
    let m = eq_iff class.multi_bucket_access multiple_buckets in
    let p =
      conjunction (class.authentication_type == service_account_authentication)
        (access.service_account_name == "") in
    let q =
      conjunction (not (supports_multi_bucket_access class))
        (nat_lt 1 (length access.bucket_claims)) in
    let f = few (length access.bucket_claims) in
    (
      λ h.
          let (x, y, z) = e.0 h in
          (
            (λ t u. let w = p.0 x (a.1 t) in absurd (ground (arith, n))),
            (λ t. f.0 (q.0 y (ground (arith, m, t)))),
            ih.0 z,
          ),
      λ h. e.1 (
        p.1 (λ t. let w = h.0 (a.0 t) in ground (arith, n)),
        q.1 (λ t. f.1 (h.1 (λ u. let w = m.1 u in ground (arith, t, w)))),
        ih.1 h.2,
      ),
    )

AreNew-dict_set :
    (m : Dict ℕ) (k : String) (n : ℕ) (rs : List BucketClaimAccess)
    → AreNew (dict_set m k n) rs ↔ (All (λ q. q.bucket_claim_name ≢ k) rs × AreNew m rs)
AreNew-dict_set m k n [] = (λ h. (tt, tt), λ h. tt)
AreNew-dict_set m k n (r ∷ rs) =
    let ih = AreNew-dict_set m k n rs in
    let g = dict_get-dict_set m k r.bucket_claim_name n in
    let e = eq_iff k r.bucket_claim_name in
    (
      λ h. (
        ((λ z. ground (arith, e, g, h.0, sym z)), (ih.0 h.1).0),
        (ground (arith, e, g, h.0), (ih.0 h.1).1),
      ),
      λ h. (ground (arith, e, g, h.0.0, h.1.0), ih.1 (h.0.1, h.1.1)),
    )

count_new :
    (r : BucketClaimAccess) (rs : List BucketClaimAccess) (m : Dict ℕ) (d : Bool)
    → dict_get m r.bucket_claim_name ≡ none
    → count_references (r ∷ rs) (m, d) ≡ count_references rs (dict_set m r.bucket_claim_name 1, d)
unfolding count_references count_reference
count_new r rs m d z =
    ap (λ o. count_references rs (count_reference o r.bucket_claim_name (m, d))) z

count_again :
    (r : BucketClaimAccess) (rs : List BucketClaimAccess) (m : Dict ℕ) (d : Bool) (n : ℕ)
    → dict_get m r.bucket_claim_name ≡ some n
    → count_references (r ∷ rs) (m, d)
      ≡ count_references rs (dict_set m r.bucket_claim_name (n + 1), true)
unfolding count_references count_reference
count_again r rs m d n z =
    ap (λ o. count_references rs (count_reference o r.bucket_claim_name (m, d))) z

count_keeps : (rs : List BucketClaimAccess) (m : Dict ℕ) → (count_references rs (m, true)).1 ≡ true
unfolding count_references
count_keeps [] m = refl
count_keeps (r ∷ rs) m = elim (Option-cases (dict_get m r.bucket_claim_name)) [
  | inl z ↦ ap (λ x. x.1) (count_new r rs m true z) ∙ count_keeps rs _
  | inr (n, z) ↦ ap (λ x. x.1) (count_again r rs m true n z) ∙ count_keeps rs _
]

count_references_iff :
    (rs : List BucketClaimAccess) (m : Dict ℕ)
    → ((count_references rs (m, false)).1 ≡ false) ↔ (AreNew m rs × IsUnique rs)
count_references_iff [] m = unfold count_references in (λ h. (tt, tt), λ h. refl)
count_references_iff (r ∷ rs) m = elim (Option-cases (dict_get m r.bucket_claim_name)) [
  | inl z ↦
      let ih = count_references_iff rs (dict_set m r.bucket_claim_name 1) in
      let a = AreNew-dict_set m r.bucket_claim_name 1 rs in
      let c = ap (λ x. x.1) (count_new r rs m false z) in
      (
        λ h. let (x, u) = ih.0 (sym c ∙ h) in let (d, w) = a.0 x in ((z, w), (d, u)),
        λ h. c ∙ ih.1 (a.1 (h.1.0, h.0.1), h.1.1),
      )
  | inr (n, z) ↦
      let k = count_keeps rs (dict_set m r.bucket_claim_name (n + 1)) in
      let c = ap (λ x. x.1) (count_again r rs m false n z) in
      (
        λ h. let w : true ≡ false = sym (c ∙ k) ∙ h in absurd (ground arith),
        λ h. let w : none ≡ some n = sym h.0.0 ∙ z in cc,
      )
]

absent : (rs : List BucketClaimAccess) → AreNew [] rs
unfolding dict_get
absent [] = tt
absent (r ∷ rs) = (refl, absent rs)

-- A BucketAccess is accepted exactly when no two of its references name the same BucketClaim.
pub validate_all_bucket_claim_references_unique_iff :
    (claim_accesses : List BucketClaimAccess)
    → (validate_all_bucket_claim_references_unique claim_accesses ≡ none) ↔ IsUnique claim_accesses
unfolding validate_all_bucket_claim_references_unique
validate_all_bucket_claim_references_unique_iff claim_accesses =
    let c = count_references_iff claim_accesses [] in
    (λ h. let w = c.0 (ground arith) in w.1, λ h. rw (c.1 (absent claim_accesses, h)) refl)
