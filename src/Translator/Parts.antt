-- ===== src/Translator/Parts.antt =====
-- translator.go: the parts of the validated translation of a response with three protocols.
use container_object_storage.Prelude.{
  String, ◌≡◌, ◌≢◌, ◌↔◌, refl, Option, none, some, List, [], Dict, dict_merge, arith, eq_iff,
}
use container_object_storage.Errors.{Arg, Result, ok, err}
use container_object_storage.Protocol.{RpcApiTranslator}
use container_object_storage.Translator.{ValidationConfig, translate, collect, finish}

-- A validated translation of one protocol's response, where that protocol is expected and where it
-- is not.
module _ {R : Type 0} (t : RpcApiTranslator R) (v : ValidationConfig) where
  pub translate_expected :
      v.expected_protocol ≡ t.api_protocol
      → (i : Option R) (out : Dict String)
      → (translate t i (some v) ≡ ok out) ↔ (
          (r : R) × (i ≡ some r)
          × (t.validate (t.rpc_to_api (some r)) v.authentication_type ≡ none)
          × (out ≡ t.rpc_to_api (some r)))
  unfolding translate
  translate_expected e none out =
      (λ h. absurd (ground (arith, eq_iff v.expected_protocol t.api_protocol)), λ h. cc (h.1))
  translate_expected e (some r) out = (
    λ h. (
      r,
      refl,
      ground (arith, eq_iff v.expected_protocol t.api_protocol),
      ground (arith, eq_iff v.expected_protocol t.api_protocol),
    ),
    λ h. ground (arith, eq_iff v.expected_protocol t.api_protocol, h.1, h.2, h.3),
  )

  pub translate_other :
      v.expected_protocol ≢ t.api_protocol
      → (i : Option R) (out : Dict String)
      → (translate t i (some v) ≡ ok out) ↔ ((i ≡ none) × (out ≡ []))
  unfolding translate
  translate_other e none out = (
    λ h. ground (arith, eq_iff v.expected_protocol t.api_protocol),
    λ h. ground (arith, eq_iff v.expected_protocol t.api_protocol),
  )
  translate_other e (some r) out =
      (λ h. absurd (ground (arith, eq_iff v.expected_protocol t.api_protocol)), λ h. cc (h.0))

-- The collected translations are accepted exactly when each of the three is.
pub collect_three {ℓ} :
    {A : Type ℓ} (format f g h : String) (x y z : List Arg) (make : Dict String → A)
    (a b c : Result (Dict String)) (out : A)
    → let (errs, all) = collect h z c (collect g y b (collect f x a ([], []))) in
      (finish format (make all) errs ≡ ok out) ↔ (
        (i j k : Dict String) × (a ≡ ok i)
        × (b ≡ ok j)
        × (c ≡ ok k)
        × (out ≡ make (dict_merge k (dict_merge j (dict_merge i [])))))
unfolding collect finish
collect_three format f g h x y z make (ok i) (ok j) (ok k) out =
    (λ e. (i, j, k, refl, refl, refl, ground arith), λ w. ground (arith, w.3, w.4, w.5, w.6))
collect_three format f g h x y z make (err i) (ok j) (ok k) out = (λ e. cc, λ w. cc)
collect_three format f g h x y z make (ok i) (err j) (ok k) out = (λ e. cc, λ w. cc)
collect_three format f g h x y z make (ok i) (ok j) (err k) out = (λ e. cc, λ w. cc)
collect_three format f g h x y z make (err i) (err j) (ok k) out = (λ e. cc, λ w. cc)
collect_three format f g h x y z make (err i) (ok j) (err k) out = (λ e. cc, λ w. cc)
collect_three format f g h x y z make (ok i) (err j) (err k) out = (λ e. cc, λ w. cc)
collect_three format f g h x y z make (err i) (err j) (err k) out = (λ e. cc, λ w. cc)

-- The response `i` is there, it is valid, and `out` is made of its variables.
abbrev pub IsAccepted {ℓ} :
    {R : Type 0} {A : Type ℓ}
    → RpcApiTranslator R
    → ValidationConfig
    → Option R
    → (Dict String → A)
    → A
    → Type ℓ
IsAccepted {R = R} t v i make out =
    (r : R) × (i ≡ some r)
    × (t.validate (t.rpc_to_api (some r)) v.authentication_type ≡ none)
    × (out ≡ make (dict_merge (t.rpc_to_api (some r)) []))

-- Three responses, of which the translator of the first, second or third expects one.
module _ {ℓ} {A : Type ℓ} {R S T : Type 0} (t : RpcApiTranslator R) (u : RpcApiTranslator S)
    (w : RpcApiTranslator T) (v : ValidationConfig) (a : Option R) (b : Option S) (c : Option T)
    (make : Dict String → A) (out : A) where
  abbrev pub AllTranslated : Type ℓ
  AllTranslated =
      (i j k : Dict String) × (translate t a (some v) ≡ ok i)
      × (translate u b (some v) ≡ ok j)
      × (translate w c (some v) ≡ ok k)
      × (out ≡ make (dict_merge k (dict_merge j (dict_merge i []))))

  pub first_expected :
      v.expected_protocol ≡ t.api_protocol
      → v.expected_protocol ≢ u.api_protocol
      → v.expected_protocol ≢ w.api_protocol
      → AllTranslated ↔ ((b ≡ none) × (c ≡ none) × IsAccepted t v a make out)
  unfolding dict_merge
  first_expected e f g = (
    λ h.
        let x = (translate_expected t v e a h.0).0 h.3 in
        let y = (translate_other u v f b h.1).0 h.4 in
        let z = (translate_other w v g c h.2).0 h.5 in
        (y.0, z.0, (x.0, x.1, x.2, rw (← x.3) (rw (y.1, z.1) at h.6))),
    λ h.
        let (r, ra, rv, ro) = h.2 in
        (
          t.rpc_to_api (some r),
          [],
          [],
          (translate_expected t v e a _).1 (r, ra, rv, refl),
          (translate_other u v f b []).1 (h.0, refl),
          (translate_other w v g c []).1 (h.1, refl),
          ro,
        ),
  )

  pub second_expected :
      v.expected_protocol ≢ t.api_protocol
      → v.expected_protocol ≡ u.api_protocol
      → v.expected_protocol ≢ w.api_protocol
      → AllTranslated ↔ ((a ≡ none) × (c ≡ none) × IsAccepted u v b make out)
  unfolding dict_merge
  second_expected e f g = (
    λ h.
        let x = (translate_other t v e a h.0).0 h.3 in
        let y = (translate_expected u v f b h.1).0 h.4 in
        let z = (translate_other w v g c h.2).0 h.5 in
        (x.0, z.0, (y.0, y.1, y.2, rw (← y.3) (rw (x.1, z.1) at h.6))),
    λ h.
        let (r, ra, rv, ro) = h.2 in
        (
          [],
          u.rpc_to_api (some r),
          [],
          (translate_other t v e a []).1 (h.0, refl),
          (translate_expected u v f b _).1 (r, ra, rv, refl),
          (translate_other w v g c []).1 (h.1, refl),
          ro,
        ),
  )

  pub third_expected :
      v.expected_protocol ≢ t.api_protocol
      → v.expected_protocol ≢ u.api_protocol
      → v.expected_protocol ≡ w.api_protocol
      → AllTranslated ↔ ((a ≡ none) × (b ≡ none) × IsAccepted w v c make out)
  unfolding dict_merge
  third_expected e f g = (
    λ h.
        let x = (translate_other t v e a h.0).0 h.3 in
        let y = (translate_other u v f b h.1).0 h.4 in
        let z = (translate_expected w v g c h.2).0 h.5 in
        (x.0, y.0, (z.0, z.1, z.2, rw (← z.3) (rw (x.1, y.1) at h.6))),
    λ h.
        let (r, ra, rv, ro) = h.2 in
        (
          [],
          [],
          w.rpc_to_api (some r),
          (translate_other t v e a []).1 (h.0, refl),
          (translate_other u v f b []).1 (h.1, refl),
          (translate_expected w v g c _).1 (r, ra, rv, refl),
          ro,
        ),
  )
