-- ===== src/SidecarAccess/Collisions.antt =====
-- sidecar/pkg/reconciler/bucketaccess.go: how many Buckets a grant is for. The configurations are kept by
-- bucket ID, so claims whose Buckets have one bucket ID share an entry.
use container_object_storage.Prelude.{
  ℕ, suc, ◌+◌, ◌≡◌, ◌≤◌, ◌↔◌, refl, sym, ap, subst, String, false, Option, none, some, List, [],
  ◌∷◌, Dict, dict_get, dict_set, dict_size, dict_get_or, dict_get-dict_set, length, All, contains,
  deref, inl, inr, arith, eq_iff, Option-cases,
}
use container_object_storage.Errors.{Result-cases, ok}
use container_object_storage.Errors.Laws.{append_ne_nil}
use container_object_storage.Api.Access.{BucketAccess, BucketClaimAccess}
use container_object_storage.Translator.{access_mode_to_rpc}
use container_object_storage.SidecarAccess.Requests.{generated_ok}
use container_object_storage.SidecarAccess.Config.{
  BucketGrantAccessConfig, Configs, bucket_ids_by_claim_name, set_config, add_config, add_configs,
  rpc_grant_buckets_list, generate_internal_accessed_bucket_configs,
}

-- No text of the list occurs twice.
abbrev pub AreDistinct : List String → Type 0
AreDistinct [] = Unit
AreDistinct (x ∷ xs) = (contains xs x ≡ false) × AreDistinct xs

-- The bucket ID of the Bucket of each claim that is referenced.
abbrev pub ids_of : Dict String → List BucketClaimAccess → List String
ids_of ids [] = []
ids_of ids (ref ∷ refs) = dict_get_or ids ref.bucket_claim_name ∷ ids_of ids refs

abbrev AreNew : Dict BucketGrantAccessConfig → List String → Type 0
AreNew m xs = All (λ x. dict_get m x ≡ none) xs

dict_size-dict_set_new :
    (m : Dict BucketGrantAccessConfig) (k : String) (v : BucketGrantAccessConfig)
    → dict_get m k ≡ none
    → dict_size (dict_set m k v) ≡ suc (dict_size m)
unfolding dict_get dict_set
dict_size-dict_set_new [] k v h = refl
dict_size-dict_set_new ((j, w) ∷ m) k v h = ground (arith, dict_size-dict_set_new m k v, h)

dict_size-dict_set_old :
    (m : Dict BucketGrantAccessConfig) (k : String) (v w : BucketGrantAccessConfig)
    → dict_get m k ≡ some w
    → dict_size (dict_set m k v) ≡ dict_size m
unfolding dict_get dict_set
dict_size-dict_set_old [] k v w h = cc
dict_size-dict_set_old ((j, u) ∷ m) k v w h = ground (arith, dict_size-dict_set_old m k v w, h)

AreNew-dict_set :
    (m : Dict BucketGrantAccessConfig) (k : String) (v : BucketGrantAccessConfig) (xs : List String)
    → AreNew (dict_set m k v) xs ↔ ((contains xs k ≡ false) × AreNew m xs)
unfolding contains
AreNew-dict_set m k v [] = (λ h. (refl, tt), λ h. tt)
AreNew-dict_set m k v (x ∷ xs) =
    let ih = AreNew-dict_set m k v xs in
    let set = dict_get-dict_set m k x v in
    (
      λ h.
          let t = ih.0 h.1 in
          (ground (arith, set, h.0, t.0, eq_iff x k, eq_iff k x), (ground (arith, set, h.0), t.1)),
      λ h. (
        ground (arith, set, h.0, h.1.0, eq_iff x k, eq_iff k x),
        ih.1 (ground (arith, h.0), h.1.1),
      ),
    )

-- Where a claim leaves no error, its configuration is set.
pub record IsConfigured (ref : BucketClaimAccess) (o : Option String) (acc : Configs) : Type 0 where
  pub no_error : acc.1 ≡ []
  pub id : String
  pub config : BucketGrantAccessConfig
  pub is_id : o ≡ some id
  pub is_set : add_config ref o acc ≡ (dict_set acc.0 id config, acc.1)

pub add_config-IsConfigured :
    (ref : BucketClaimAccess) (o : Option String) (acc : Configs)
    → (add_config ref o acc).1 ≡ []
    → IsConfigured ref o acc
unfolding add_config set_config
add_config-IsConfigured ref none (m, errs) h = absurd (append_ne_nil errs _ h)
add_config-IsConfigured ref (some id) (m, errs) h =
    elim (Result-cases (access_mode_to_rpc ref.access_mode)) [
      | inl (mode, q) ↦ record {
        no_error = rw q at h;
        id = id;
        config = record { access_mode = mode; access_secret_name = ref.access_secret_name };
        is_id = refl;
        is_set = rw q refl;
      }
      | inr (x, q) ↦ absurd (append_ne_nil errs _ (rw q at h))
    ]

pub add_configs-stays :
    (ids : Dict String) (refs : List BucketClaimAccess) (acc : Configs)
    → (add_configs ids refs acc).1 ≡ []
    → acc.1 ≡ []
unfolding add_configs
add_configs-stays ids [] acc h = h
add_configs-stays ids (ref ∷ refs) acc h =
    (add_config-IsConfigured ref (dict_get ids ref.bucket_claim_name) acc
      (add_configs-stays ids refs _ h)).no_error

-- A size is at most that of a map and of a list together, and is that exactly when the texts of the
-- list are different and new.
abbrev IsBounded : ℕ → Dict BucketGrantAccessConfig → List String → Type 0
IsBounded n m xs =
    (n ≤ dict_size m + length xs) × ((n ≡ dict_size m + length xs) ↔ (AreDistinct xs × AreNew m xs))

IsBounded-dict_set :
    (n : ℕ) (m : Dict BucketGrantAccessConfig) (k : String) (v : BucketGrantAccessConfig)
    (xs : List String)
    → IsBounded n (dict_set m k v) xs
    → IsBounded n m (k ∷ xs)
IsBounded-dict_set n m k v xs (le, (only, all)) =
    let news = AreNew-dict_set m k v xs in
    elim (Option-cases (dict_get m k)) [
      | inl p ↦
          let size = dict_size-dict_set_new m k v p in
          (
            omega arith,
            (
              λ e. let t = only (omega arith) in let u = news.0 t.1 in ((u.0, t.0), (p, u.1)),
              λ ((c, d), (q, r)). let e = all (d, news.1 (c, r)) in omega arith,
            ),
          )
      | inr (w, p) ↦
          let size = dict_size-dict_set_old m k v w p in
          (omega arith, ((λ e. absurd (omega arith)), (λ (d, (q, r)). cc)))
    ]

add_configs-IsBounded :
    (ids : Dict String) (refs : List BucketClaimAccess) (acc : Configs)
    → (add_configs ids refs acc).1 ≡ []
    → IsBounded (dict_size (add_configs ids refs acc).0) acc.0 (ids_of ids refs)
unfolding add_configs
add_configs-IsBounded ids [] acc h = (omega arith, ((λ e. (tt, tt)), (λ e. omega arith)))
add_configs-IsBounded ids (ref ∷ refs) acc h =
    let step =
      add_config-IsConfigured ref (dict_get ids ref.bucket_claim_name) acc
        (add_configs-stays ids refs _ h) in
    let ih =
      add_configs-IsBounded ids refs (dict_set acc.0 step.id step.config, acc.1)
        (subst (λ c. (add_configs ids refs c).1 ≡ []) step.is_set h) in
    subst
      (λ o.
        IsBounded (dict_size (add_configs ids (ref ∷ refs) acc).0) acc.0
          (deref o "" ∷ ids_of ids refs))
      (sym step.is_id)
      (subst
        (λ c. IsBounded (dict_size (add_configs ids refs c).0) acc.0 (step.id ∷ ids_of ids refs))
        (sym step.is_set) (IsBounded-dict_set _ acc.0 step.id step.config _ ih))

length-ids_of :
    (ids : Dict String) (refs : List BucketClaimAccess) → length (ids_of ids refs) ≡ length refs
length-ids_of ids [] = refl
length-ids_of ids (ref ∷ refs) = ap suc (length-ids_of ids refs)

length-rpc_grant_buckets_list :
    (m : Dict BucketGrantAccessConfig) → length (rpc_grant_buckets_list m) ≡ dict_size m
unfolding rpc_grant_buckets_list
length-rpc_grant_buckets_list [] = refl
length-rpc_grant_buckets_list ((k, v) ∷ m) = ap suc (length-rpc_grant_buckets_list m)

AreNew-nil : (xs : List String) → AreNew [] xs
unfolding dict_get
AreNew-nil [] = tt
AreNew-nil (x ∷ xs) = (refl, AreNew-nil xs)

-- The configurations of a grant, and so the Buckets that its request names, are at most as many as the
-- referenced claims, and as many as these exactly when no two of the claims have Buckets with one bucket
-- ID.
pub generate_internal_accessed_bucket_configs-bounds :
    (a : BucketAccess) (m : Dict BucketGrantAccessConfig)
    → generate_internal_accessed_bucket_configs a ≡ ok m
    → (length (rpc_grant_buckets_list m) ≤ length a.spec.bucket_claims)
      × ((length (rpc_grant_buckets_list m) ≡ length a.spec.bucket_claims)
          ↔ AreDistinct
              (ids_of (bucket_ids_by_claim_name a.status.accessed_buckets []) a.spec.bucket_claims))
unfolding generate_internal_accessed_bucket_configs
generate_internal_accessed_bucket_configs-bounds a m h =
    let ids = bucket_ids_by_claim_name a.status.accessed_buckets [] in
    let acc = add_configs ids a.spec.bucket_claims ([], []) in
    let done = generated_ok acc m h in
    let (le, (only, all)) = add_configs-IsBounded ids a.spec.bucket_claims ([], []) done.1 in
    let size = length-rpc_grant_buckets_list m in
    let same : dict_size acc.0 ≡ dict_size m = ap length done.0 in
    let refs = length-ids_of ids a.spec.bucket_claims in
    (
      omega arith,
      ((λ e. (only (omega arith)).0), (λ d. let e = all (d, AreNew-nil _) in omega arith)),
    )
