-- ===== src/AccessController/References.antt =====
-- bucketaccess.go of the Controller: what it is that BucketAccesses reference a claim, told by the
-- elements of the lists, and that the two searches of the code find just this.
use container_object_storage.Prelude.{
  ◌≡◌, ◌≢◌, ◌↔◌, refl, String, true, ◌==◌, List, [], ◌∷◌, Exists, inl, inr, eq_iff, Bool-cases,
}
use container_object_storage.Api.Access.{BucketAccess, BucketClaimAccess}
use container_object_storage.AccessController.Marks.{has_reference, has_bucket_access_references}

-- One of the references names the claim.
abbrev pub Refers : String → List BucketClaimAccess → Type 0
Refers n refs = Exists (λ r. r.bucket_claim_name ≡ n) refs

-- A BucketAccess of the list with a name other than the given one references the claim.
abbrev pub IsReferenced : String → List BucketAccess → String → Type 0
IsReferenced n l ignored =
    Exists (λ b. (b.metadata.name ≢ ignored) × Refers n b.spec.bucket_claims) l

pub has_reference-iff-Refers :
    (n : String) (refs : List BucketClaimAccess) → (has_reference n refs ≡ true) ↔ Refers n refs
unfolding has_reference
has_reference-iff-Refers n [] = (λ h. cc, λ h. absurd h)
has_reference-iff-Refers n (r ∷ refs) =
    let ih = has_reference-iff-Refers n refs in
    let e = eq_iff r.bucket_claim_name n in
    elim (Bool-cases (r.bucket_claim_name == n)) [
      | inl t ↦ (λ h. inl (e.0 t), λ h. rw t refl)
      | inr t ↦ (
        λ h. inr (ih.0 (rw t at h)),
        λ h. elim h [ inl p ↦ let q = e.1 p in cc | inr p ↦ rw t (ih.1 p) ],
      )
    ]

pub has_bucket_access_references-iff-IsReferenced :
    (n : String) (l : List BucketAccess) (ignored : String)
    → (has_bucket_access_references n l ignored ≡ true) ↔ IsReferenced n l ignored
unfolding has_bucket_access_references
has_bucket_access_references-iff-IsReferenced n [] ignored = (λ h. cc, λ h. absurd h)
has_bucket_access_references-iff-IsReferenced n (b ∷ l) ignored =
    let ih = has_bucket_access_references-iff-IsReferenced n l ignored in
    let e = eq_iff b.metadata.name ignored in
    let f = has_reference-iff-Refers n b.spec.bucket_claims in
    elim (Bool-cases (b.metadata.name == ignored)) [
      | inl t ↦ (
        λ h. inr (ih.0 (rw t at h)),
        λ h. elim h [ inl p ↦ absurd (p.0 (e.0 t)) | inr p ↦ rw t (ih.1 p) ],
      )
      | inr t ↦ elim (Bool-cases (has_reference n b.spec.bucket_claims)) [
        | inl u ↦ (λ h. inl ((λ p. let q = e.1 p in cc), f.0 u), λ h. rw t (rw u refl))
        | inr u ↦ (
          λ h. inr (ih.0 (rw u at (rw t at h))),
          λ h. elim h [ inl p ↦ let q = f.1 p.1 in cc | inr p ↦ rw t (rw u (ih.1 p)) ],
        )
      ]
    ]
