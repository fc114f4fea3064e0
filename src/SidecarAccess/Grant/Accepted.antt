-- ===== src/SidecarAccess/Grant/Accepted.antt =====
-- sidecar/pkg/reconciler/bucketaccess.go: what an answer to a grant that is accepted is made of.
use container_object_storage.Prelude.{
  ◌≡◌, ◌≢◌, ◌⊎◌, ◌∙◌, ℕ, suc, refl, sym, ap, String, true, none, some, Option, List, [], ◌∷◌, ◌==◌,
  Dict, dict_set, dict_get-dict_set, dict_has, All, inl, inr, arith, eq_iff, Bool-cases,
}
use mathlib.Core.Path.{ap₂}
use container_object_storage.Errors.{ok, Result-cases, error_if, errorf}
use container_object_storage.Errors.Laws.{append_ne_nil}
use container_object_storage.Rpc.{
  DriverGrantBucketAccessResponse, GrantedBucketInfo, CredentialInfo, ObjectProtocolAndBucketInfo,
}
use container_object_storage.Protocol.{
  api_to_rpc, object_protocol_s3, object_protocol_azure, object_protocol_gcs,
}
use container_object_storage.Translator.{ValidationConfig, credentials_to_api, bucket_info_to_api}
use container_object_storage.Translator.Laws.{
  credentials_to_api_validated, bucket_info_to_api_validated,
}
use container_object_storage.SidecarAccess.Granted.{
  GrantedAccessApiDetails, Infos, collect_credentials, collect_info, collect_granted,
  collect_all_granted, translate_driver_grant_bucket_access_response_to_api,
}
use container_object_storage.SidecarAccess.Answer.{granted-ok, collect_all_granted-stays}
use container_object_storage.SidecarAccess.Grant.{AreCredentials, IsInfo}

-- The protocol is one of the three.
abbrev pub IsKnown : String → Type 0
IsKnown p = (p ≡ object_protocol_s3) ⊎ ((p ≡ object_protocol_azure) ⊎ (p ≡ object_protocol_gcs))

pub credentials_to_api-AreCredentials :
    (v : ValidationConfig) (o : Option CredentialInfo) (out : Dict String)
    → IsKnown v.expected_protocol
    → credentials_to_api o v ≡ ok out
    → AreCredentials v o out
credentials_to_api-AreCredentials v none out known h = unfold credentials_to_api in cc
credentials_to_api-AreCredentials v (some ci) out known h =
    let (s3, azure, gcs) = credentials_to_api_validated ci v out in
    (
      ci,
      refl,
      elim known [
        | inl p ↦ let (x, y, t) = (s3 p).0 h in inl (p, x, y, t)
        | inr (inl p) ↦ let (x, y, t) = (azure p).0 h in inr (inl (p, x, y, t))
        | inr (inr p) ↦ let (x, y, t) = (gcs p).0 h in inr (inr (p, x, y, t))
      ],
    )

pub bucket_info_to_api-IsInfo :
    (v : ValidationConfig) (o : Option ObjectProtocolAndBucketInfo) (ps : List String)
    (out : Dict String)
    → IsKnown v.expected_protocol
    → bucket_info_to_api o (some v) ≡ ok (ps, out)
    → IsInfo v o out
bucket_info_to_api-IsInfo v none ps out known h = unfold bucket_info_to_api in cc
bucket_info_to_api-IsInfo v (some bi) ps out known h =
    let (s3, azure, gcs) = bucket_info_to_api_validated bi v (ps, out) in
    (
      bi,
      refl,
      elim known [
        | inl p ↦ let (x, y, (r, i, t, e)) = (s3 p).0 h in inl (p, x, y, (r, i, t, ap (λ z. z.1) e))
        | inr (inl p) ↦
            let (x, y, (r, i, t, e)) = (azure p).0 h in
            inr (inl (p, x, y, (r, i, t, ap (λ z. z.1) e)))
        | inr (inr p) ↦
            let (x, y, (r, i, t, e)) = (gcs p).0 h in
            inr (inr (p, x, y, (r, i, t, ap (λ z. z.1) e)))
      ],
    )

pub translate-parts :
    (resp : DriverGrantBucketAccessResponse) (v : ValidationConfig) (d : GrantedAccessApiDetails)
    → translate_driver_grant_bucket_access_response_to_api resp v ≡ ok d
    → (credentials_to_api resp.credentials v ≡ ok d.shared_credential_info)
      × (collect_all_granted v 0 resp.buckets ([], []) ≡ (d.bucket_info_by_bucket_id, []))
unfolding translate_driver_grant_bucket_access_response_to_api collect_credentials
translate-parts resp v d h = elim (Result-cases (credentials_to_api resp.credentials v)) [
  | inl (c, p) ↦
      let errs = error_if (resp.account_id == "") (errorf "missing account ID" []) in
      let (_, none_left, same, infos) = granted-ok _ c _ d (rw p at h) in
      let z : errs ≡ [] = collect_all_granted-stays v 0 resp.buckets ([], errs) none_left in
      (
        p ∙ ap ok same,
        ap (λ e. collect_all_granted v 0 resp.buckets ([], e)) (sym z)
            ∙ ap₂ (λ x y. (x, y)) infos none_left,
      )
  | inr (e, p) ↦
      let (_, none_left, _, _) = granted-ok _ [] _ d (rw p at h) in
      absurd (append_ne_nil _ _ (collect_all_granted-stays v 0 resp.buckets ([], _) none_left))
]

-- A protocol that has a number is one of the three.
pub api_to_rpc-IsKnown : (p : String) (n : ℕ) → api_to_rpc p ≡ ok n → IsKnown p
unfolding api_to_rpc
api_to_rpc-IsKnown p n h = ground (
  arith,
  h,
  eq_iff object_protocol_s3 p,
  eq_iff object_protocol_azure p,
  eq_iff object_protocol_gcs p,
)

-- An element of the answer that leaves no error sets its info under its bucket ID.
record IsAccepted (v : ValidationConfig) (i : ℕ) (b : GrantedBucketInfo) (acc : Infos)
    : Type 0 where
  has_id : b.bucket_id ≢ ""
  protocols : List String
  info : Dict String
  is_info : bucket_info_to_api b.bucket_info (some v) ≡ ok (protocols, info)
  is_set : collect_granted v i b acc ≡ (dict_set acc.0 b.bucket_id info, acc.1)

collect_granted-IsAccepted :
    (v : ValidationConfig) (i : ℕ) (b : GrantedBucketInfo) (acc : Infos)
    → (collect_granted v i b acc).1 ≡ []
    → IsAccepted v i b acc
unfolding collect_granted collect_info
collect_granted-IsAccepted v i b (m, errs) h = elim (Bool-cases (b.bucket_id == "")) [
  | inl t ↦ absurd (append_ne_nil errs _ (rw t at h))
  | inr t ↦
      let h' = rw t at h in
      elim (Result-cases (bucket_info_to_api b.bucket_info (some v))) [
        | inl ((ps, n), p) ↦ record {
          has_id = λ e. let q = (eq_iff b.bucket_id "").1 e in cc;
          protocols = ps;
          info = n;
          is_info = p;
          is_set = rw t (rw p refl);
        }
        | inr (x, p) ↦ absurd (append_ne_nil errs _ (rw p at h'))
      ]
]

pub dict_set-All {ℓ κ} :
    {V : Type ℓ} (P : String × V → Type κ) (m : Dict V) (k : String) (v : V)
    → All P m
    → P (k, v)
    → All P (dict_set m k v)
unfolding dict_set
dict_set-All P [] k v h p = (p, tt)
dict_set-All P ((j, w) ∷ m) k v h p = elim (Bool-cases (j == k)) [
  | inl e ↦ rw e (p, h.1)
  | inr e ↦ rw e (h.0, dict_set-All P m k v h.1 p)
]

pub dict_set-keeps {ℓ} :
    {V : Type ℓ} (m : Dict V) (k j : String) (v : V)
    → (k ≡ j) ⊎ (dict_has m j ≡ true)
    → dict_has (dict_set m k v) j ≡ true
dict_set-keeps m k j v h = ground (arith, h, eq_iff k j, dict_get-dict_set m k j v)

module _ (v : ValidationConfig) where
  collect_all_granted-keeps :
      (i : ℕ) (bs : List GrantedBucketInfo) (acc : Infos) (id : String)
      → (collect_all_granted v i bs acc).1 ≡ []
      → dict_has acc.0 id ≡ true
      → dict_has (collect_all_granted v i bs acc).0 id ≡ true
  unfolding collect_all_granted
  collect_all_granted-keeps i [] acc id h p = p
  collect_all_granted-keeps i (b ∷ bs) acc id h p =
      let step =
        collect_granted-IsAccepted v i b acc (collect_all_granted-stays v (suc i) bs _ h) in
      collect_all_granted-keeps (suc i) bs _ id h
        (rw step.is_set (dict_set-keeps acc.0 b.bucket_id id step.info (inr p)))

  -- Each element of the answer has a bucket ID and a valid info, and the ID is a key of the map.
  pub collect_all_granted-accepts :
      (i : ℕ) (bs : List GrantedBucketInfo) (acc : Infos)
      → IsKnown v.expected_protocol
      → (collect_all_granted v i bs acc).1 ≡ []
      → All
          (λ b.
            (b.bucket_id ≢ "")
            × (dict_has (collect_all_granted v i bs acc).0 b.bucket_id ≡ true
                × ((info : Dict String) × IsInfo v b.bucket_info info)))
          bs
  unfolding collect_all_granted
  collect_all_granted-accepts i [] acc known h = tt
  collect_all_granted-accepts i (b ∷ bs) acc known h =
      let step =
        collect_granted-IsAccepted v i b acc (collect_all_granted-stays v (suc i) bs _ h) in
      (
        (
          step.has_id,
          (
            collect_all_granted-keeps (suc i) bs _ b.bucket_id h (
                rw step.is_set (dict_set-keeps acc.0 b.bucket_id b.bucket_id step.info (inl refl))),
            (step.info, bucket_info_to_api-IsInfo v _ step.protocols step.info known step.is_info),
          ),
        ),
        collect_all_granted-accepts (suc i) bs _ known h,
      )

  -- Each entry of the map is what an element of the answer gives.
  pub collect_all_granted-All :
      (P : String × Dict String → Type 0) (i : ℕ) (bs : List GrantedBucketInfo) (acc : Infos)
      → IsKnown v.expected_protocol
      → (collect_all_granted v i bs acc).1 ≡ []
      → All (λ b. (info : Dict String) → IsInfo v b.bucket_info info → P (b.bucket_id, info)) bs
      → All P acc.0
      → All P (collect_all_granted v i bs acc).0
  unfolding collect_all_granted
  collect_all_granted-All P i [] acc known h f p = p
  collect_all_granted-All P i (b ∷ bs) acc known h f p =
      let step =
        collect_granted-IsAccepted v i b acc (collect_all_granted-stays v (suc i) bs _ h) in
      collect_all_granted-All P (suc i) bs _ known h f.1 (
        rw step.is_set (
          dict_set-All P acc.0 b.bucket_id step.info p (
            f.0 step.info
              (bucket_info_to_api-IsInfo v _ step.protocols step.info known step.is_info))))
