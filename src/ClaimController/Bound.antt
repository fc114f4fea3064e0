-- ===== src/ClaimController/Bound.antt =====
-- bucketclaim.go: when a Bucket is bound to a claim, and which name its Bucket has.
use Prim.Native.Char.{Char}
use Prim.Native.String.{◌++◌ as append}
use Prim.Native.String.append
use container_object_storage.Prelude.{
  ◌≡◌, ◌≢◌, refl, sym, ◌∙◌, ◌↔◌, ◌⊎◌, String, true, false, arith, eq_iff,
}
use container_object_storage.Errors.{ok}
use container_object_storage.Api.Bucket.{Bucket, BucketClaim}
use container_object_storage.World.{Env, History}
use container_object_storage.ClaimController.Binding.{
  determine_bucket_name, bucket_is_bound_to_claim,
}

-- The Bucket references the claim by namespace, name and UID.
pub record BelongsTo (b : Bucket) (c : BucketClaim) : Type 0 where
  pub same_namespace : b.spec.bucket_claim_ref.namespace ≡ c.metadata.namespace
  pub same_name : b.spec.bucket_claim_ref.name ≡ c.metadata.name
  pub same_uid : b.spec.bucket_claim_ref.uid ≡ c.metadata.uid
  pub is_bound : b.spec.bucket_claim_ref.uid ≢ ""

-- The Bucket was made for a claim of this namespace and name, and is bound to none.
pub record IsReservedFor (b : Bucket) (c : BucketClaim) : Type 0 where
  pub same_namespace : b.spec.bucket_claim_ref.namespace ≡ c.metadata.namespace
  pub same_name : b.spec.bucket_claim_ref.name ≡ c.metadata.name
  pub is_unbound : b.spec.bucket_claim_ref.uid ≡ ""

belongs : (b : Bucket) (c : BucketClaim) → (bucket_is_bound_to_claim b c ≡ ok true) ↔ BelongsTo b c
unfolding bucket_is_bound_to_claim
belongs b c =
    let r = b.spec.bucket_claim_ref in
    (
      λ h. ground (
        arith,
        eq_iff r.namespace c.metadata.namespace,
        eq_iff r.name c.metadata.name,
        eq_iff r.uid c.metadata.uid,
        eq_iff r.uid "",
      ),
      λ h. ground (
        arith,
        eq_iff r.namespace c.metadata.namespace,
        eq_iff r.name c.metadata.name,
        eq_iff r.uid c.metadata.uid,
        eq_iff r.uid "",
      ),
    )

reserved :
    (b : Bucket) (c : BucketClaim) → (bucket_is_bound_to_claim b c ≡ ok false) ↔ IsReservedFor b c
unfolding bucket_is_bound_to_claim
reserved b c =
    let r = b.spec.bucket_claim_ref in
    (
      λ h. ground (
        arith,
        eq_iff r.namespace c.metadata.namespace,
        eq_iff r.name c.metadata.name,
        eq_iff r.uid c.metadata.uid,
        eq_iff r.uid "",
      ),
      λ h. ground (
        arith,
        eq_iff r.namespace c.metadata.namespace,
        eq_iff r.name c.metadata.name,
        eq_iff r.uid c.metadata.uid,
        eq_iff r.uid "",
      ),
    )

-- A Bucket is reported bound to a claim exactly when its claim reference has a UID and agrees with the
-- claim in namespace, name and UID; it is reported not bound exactly when the reference has no UID
-- and agrees in namespace and name.
pub bucket_is_bound_to_claim_cases :
    (b : Bucket) (c : BucketClaim)
    → ((bucket_is_bound_to_claim b c ≡ ok true) ↔ BelongsTo b c)
      × ((bucket_is_bound_to_claim b c ≡ ok false) ↔ IsReservedFor b c)
bucket_is_bound_to_claim_cases b c = (belongs b c, reserved b c)

abbrev first : Char
first = "b"

prefixed : (u : String) → append "bc-" u ≢ ""
prefixed u h =
    let e : append "bc-" u ≡ String.◌∷◌ first (append "c-" u) = append.cons first "c-" u in cc

-- The name of a claim's Bucket is the existing Bucket's that the claim asks for, or else "bc-" with
-- the claim's UID; it is an error exactly when the claim is already bound to another name.
pub determine_bucket_name_iff :
    (c : BucketClaim) (n : String)
    → (determine_bucket_name c ≡ ok n) ↔ (
        (((c.spec.existing_bucket_name ≢ "") × (n ≡ c.spec.existing_bucket_name))
          ⊎ ((c.spec.existing_bucket_name ≡ "") × (n ≡ append "bc-" c.metadata.uid)))
        × ((c.status.bound_bucket_name ≡ "") ⊎ (c.status.bound_bucket_name ≡ n)))
unfolding determine_bucket_name
determine_bucket_name_iff c n =
    let x = c.spec.existing_bucket_name in
    let b = c.status.bound_bucket_name in
    let d = append "bc-" c.metadata.uid in
    (
      λ h. ground (arith, eq_iff x "", eq_iff b "", eq_iff b x, eq_iff b d, eq_iff d ""),
      λ h. ground (
        arith,
        eq_iff x "",
        eq_iff b "",
        eq_iff b x,
        eq_iff b d,
        eq_iff d "",
        prefixed c.metadata.uid,
      ),
    )

-- The claim by which a Bucket is compared: its namespace, name and UID.
pub record IsSameClaim (c d : BucketClaim) : Type 0 where
  pub same_namespace : c.metadata.namespace ≡ d.metadata.namespace
  pub same_name : c.metadata.name ≡ d.metadata.name
  pub same_uid : c.metadata.uid ≡ d.metadata.uid

-- The server never changes the namespace, the name or the UID of an object that it updates; an
-- update of the status stores it as it was sent, and another update leaves the stored status as it
-- is.
pub record KeepsClaims (env : Env) : Type 0 where
  pub on_status :
      (h : History) (c d : BucketClaim)
      → env.on_update_bucket_claim_status h c ≡ ok d
      → IsSameClaim c d × (c.status.bound_bucket_name ≡ d.status.bound_bucket_name)
  pub on_object :
      (h : History) (c d : BucketClaim)
      → env.on_update_bucket_claim h c ≡ ok d
      → IsSameClaim c d × (c.status.bound_bucket_name ≡ d.status.bound_bucket_name)

pub IsSameClaim-refl : (c : BucketClaim) → IsSameClaim c c
IsSameClaim-refl c = record { same_namespace = refl; same_name = refl; same_uid = refl }

pub IsSameClaim-trans : {c d e : BucketClaim} → IsSameClaim c d → IsSameClaim d e → IsSameClaim c e
IsSameClaim-trans p q = record {
  same_namespace = p.same_namespace ∙ q.same_namespace;
  same_name = p.same_name ∙ q.same_name;
  same_uid = p.same_uid ∙ q.same_uid;
}

pub BelongsTo-same :
    (b : Bucket) {c d : BucketClaim} → IsSameClaim c d → BelongsTo b d → BelongsTo b c
BelongsTo-same b s p = record {
  same_namespace = p.same_namespace ∙ sym s.same_namespace;
  same_name = p.same_name ∙ sym s.same_name;
  same_uid = p.same_uid ∙ sym s.same_uid;
  is_bound = p.is_bound;
}

pub BelongsTo-same_back :
    (b : Bucket) {c d : BucketClaim} → IsSameClaim c d → BelongsTo b c → BelongsTo b d
BelongsTo-same_back b s p = record {
  same_namespace = p.same_namespace ∙ s.same_namespace;
  same_name = p.same_name ∙ s.same_name;
  same_uid = p.same_uid ∙ s.same_uid;
  is_bound = p.is_bound;
}
