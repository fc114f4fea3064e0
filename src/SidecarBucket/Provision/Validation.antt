-- ===== src/SidecarBucket/Provision/Validation.antt =====
-- bucket.go: what the validations of protocols accept.
use container_object_storage.Prelude.{
  ℕ, String, ◌≡◌, ◌≢◌, ◌↔◌, inl, inr, refl, ap, ◌∙◌, true, none, List, [], ◌∷◌, ◌++◌, arith, All,
  Bool-cases, contains,
}
use mathlib.Core.List.{append-nil, append_assoc}
use container_object_storage.Errors.{Arg, text, Error, ok, Result-cases}
use container_object_storage.Protocol.{api_to_rpc}
use container_object_storage.Driver.{DriverInfo, supports_protocol}
use container_object_storage.SidecarBucket.Provision.{
  parse_protocols, parsed, object_protocol_list_from_api_list, unsupported_by_driver,
  unsupported_error, validate_driver_supports_protocols, unsupported_by_bucket,
  validate_bucket_supports_protocols,
}

unsupported_error-none :
    (format : String) (args ps : List Arg) → (unsupported_error format args ps ≡ none) ↔ (ps ≡ [])
unfolding unsupported_error
unsupported_error-none format args [] = (λ h. refl, λ h. refl)
unsupported_error-none format args (p ∷ ps) = (λ h. cc, λ h. cc)

unsupported_by_driver-nil :
    (driver : DriverInfo) (ps : List ℕ)
    → (unsupported_by_driver driver ps ≡ []) ↔ All (λ p. supports_protocol driver p ≡ true) ps
unfolding unsupported_by_driver
unsupported_by_driver-nil driver [] = (λ h. tt, λ h. refl)
unsupported_by_driver-nil driver (p ∷ ps) =
    let ih = unsupported_by_driver-nil driver ps in
    elim (Bool-cases (supports_protocol driver p)) [
      | inl e ↦ rw e (λ h. (refl, ih.0 h), λ h. ih.1 h.1)
      | inr e ↦ rw e (λ h. cc, λ h. cc (h.0))
    ]

-- The protocols are accepted exactly when the driver supports each of them.
pub validate_driver_supports_protocols_iff :
    (driver : DriverInfo) (ps : List ℕ)
    → (validate_driver_supports_protocols driver ps ≡ none)
      ↔ All (λ p. supports_protocol driver p ≡ true) ps
unfolding validate_driver_supports_protocols
validate_driver_supports_protocols_iff driver ps =
    let a =
      unsupported_error-none "driver %q does not support protocols: %v" (text driver.name ∷ [])
        (unsupported_by_driver driver ps) in
    let b = unsupported_by_driver-nil driver ps in (λ h. b.0 (a.0 h), λ h. a.1 (b.1 h))

unsupported_by_bucket-nil :
    (supported rs : List String)
    → (unsupported_by_bucket supported rs ≡ []) ↔ All (λ r. contains supported r ≡ true) rs
unfolding unsupported_by_bucket
unsupported_by_bucket-nil supported [] = (λ h. tt, λ h. refl)
unsupported_by_bucket-nil supported (r ∷ rs) =
    let ih = unsupported_by_bucket-nil supported rs in
    elim (Bool-cases (contains supported r)) [
      | inl e ↦ rw e (λ h. (refl, ih.0 h), λ h. ih.1 h.1)
      | inr e ↦ rw e (λ h. cc, λ h. cc (h.0))
    ]

-- The required protocols are accepted exactly when each of them is among the supported ones.
pub validate_bucket_supports_protocols_iff :
    (supported required : List String)
    → (validate_bucket_supports_protocols supported required ≡ none)
      ↔ All (λ r. contains supported r ≡ true) required
unfolding validate_bucket_supports_protocols
validate_bucket_supports_protocols_iff supported required =
    let a =
      unsupported_error-none "required protocols are not supported: %v" []
        (unsupported_by_bucket supported required) in
    let b = unsupported_by_bucket-nil supported required in (λ h. b.0 (a.0 h), λ h. a.1 (b.1 h))

-- The two lists have equal length, and the driver's protocol at each place is the translation of the
-- API's.
abbrev pub AreTranslated : List String → List ℕ → Type 0
AreTranslated [] [] = Unit
AreTranslated (a ∷ as') (p ∷ ps) = (api_to_rpc a ≡ ok p) × AreTranslated as' ps
AreTranslated _ _ = ⊥

parse_failed :
    (as' : List String) (e : Error) (es : List Error) (out ps : List ℕ)
    → parsed (parse_protocols as' (e ∷ es, out)) ≢ ok ps
unfolding parsed parse_protocols
parse_failed [] e es out ps h = cc
parse_failed (a ∷ as') e es out ps h = elim (Result-cases (api_to_rpc a)) [
  | inl (p, q) ↦ parse_failed as' e es (out ++ p ∷ []) ps (rw q at h)
  | inr (f, q) ↦ parse_failed as' e (es ++ f ∷ []) out ps (rw q at h)
]

parse_sound :
    (as' : List String) (out ps : List ℕ)
    → parsed (parse_protocols as' ([], out)) ≡ ok ps
    → (qs : List ℕ) × (ps ≡ out ++ qs) × AreTranslated as' qs
unfolding parsed parse_protocols
parse_sound [] out ps h = ([], ground (arith, append-nil out), tt)
parse_sound (a ∷ as') out ps h = elim (Result-cases (api_to_rpc a)) [
  | inl (p, q) ↦
      let (qs, e, t) = parse_sound as' (out ++ p ∷ []) ps (rw q at h) in
      (p ∷ qs, e ∙ append_assoc out (p ∷ []) qs, (q, t))
  | inr (f, q) ↦ absurd (parse_failed as' f [] out ps (rw q at h))
]

parse_complete :
    (as' : List String) (out qs : List ℕ)
    → AreTranslated as' qs
    → parsed (parse_protocols as' ([], out)) ≡ ok (out ++ qs)
unfolding parsed parse_protocols
parse_complete [] out [] t = ground (arith, append-nil out)
parse_complete [] out (q ∷ qs) t = absurd t
parse_complete (a ∷ as') out [] t = absurd t
parse_complete (a ∷ as') out (q ∷ qs) t =
    rw t.0 (parse_complete as' (out ++ q ∷ []) qs t.1 ∙ ap ok (append_assoc out (q ∷ []) qs))

-- A list of API protocols is parsed exactly to the list of their translations, and fails if one of
-- them has none.
pub object_protocol_list_from_api_list_iff :
    (api_list : List String) (ps : List ℕ)
    → (object_protocol_list_from_api_list api_list ≡ ok ps) ↔ AreTranslated api_list ps
unfolding object_protocol_list_from_api_list
object_protocol_list_from_api_list_iff api_list ps = (
  λ h. let (qs, e, t) = parse_sound api_list [] ps h in rw e t,
  λ t. parse_complete api_list [] ps t,
)
