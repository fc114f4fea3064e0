-- ===== src/Driver/Laws.antt =====
-- driver.go: what the validated driver info promises.
use Prim.Native.Char.{Char, code}
use Prim.Native.String.{String, len, ◌++◌ as append}
use Prim.Native.String.append
use container_object_storage.Prelude.{
  ℕ, ◌≤◌, ◌≡◌, ◌≢◌, ◌↔◌, inl, inr, refl, sym, ap, ◌∙◌, true, false, none, List, [], ◌∷◌, ◌++◌,
  arith, All, contains_nat, nat_eq, Bool-cases,
}
use text.Mathlib.TextEquality.{Char-path}
use mathlib.Core.List.{append-nil, append_assoc}
use container_object_storage.Errors.{ok}
use container_object_storage.Driver.{
  DriverInfo, split_labels, prepend, bad_labels, validate_driver_name, parse_protocols,
  validate_and_parse_protocols, validate_and_set_driver_connection_info,
}

-- No number of the list occurs twice.
abbrev pub IsDistinct : List ℕ → Type 0
IsDistinct [] = Unit
IsDistinct (t ∷ ts) = (contains_nat ts t ≡ false) × IsDistinct ts

abbrev AllAbsent : List ℕ → List ℕ → Type 0
AllAbsent seen ts = All (λ t. contains_nat seen t ≡ false) ts

AllAbsent-cons_sound :
    (t : ℕ) (seen ts : List ℕ)
    → AllAbsent (t ∷ seen) ts
    → (contains_nat ts t ≡ false) × AllAbsent seen ts
unfolding contains_nat
AllAbsent-cons_sound t seen [] h = (refl, tt)
AllAbsent-cons_sound t seen (u ∷ ts) h =
    let ih = AllAbsent-cons_sound t seen ts h.1 in (ground (arith, ih), (ground (arith, h.0), ih.1))

AllAbsent-cons_complete :
    (t : ℕ) (seen ts : List ℕ)
    → contains_nat ts t ≡ false
    → AllAbsent seen ts
    → AllAbsent (t ∷ seen) ts
unfolding contains_nat
AllAbsent-cons_complete t seen [] n h = tt
AllAbsent-cons_complete t seen (u ∷ ts) n h =
    (ground (arith, h.0), AllAbsent-cons_complete t seen ts (ground arith) h.1)

parse_protocols_sound :
    (ts out seen qs : List ℕ)
    → parse_protocols ts out seen ≡ ok qs
    → (qs ≡ out ++ ts) × All (λ t. t ≢ 0) ts × IsDistinct ts × AllAbsent seen ts
unfolding parse_protocols
parse_protocols_sound [] out seen qs h = (ground (arith, append-nil out), tt, tt, tt)
parse_protocols_sound (t ∷ ts) out seen qs h = elim (Bool-cases (nat_eq t 0)) [
  | inl z ↦ absurd (ground arith)
  | inr z ↦ elim (Bool-cases (contains_nat seen t)) [
    | inl c ↦ absurd (ground arith)
    | inr c ↦
        let ih = parse_protocols_sound ts (out ++ t ∷ []) (t ∷ seen) qs (rw (z, c) at h) in
        let absent = AllAbsent-cons_sound t seen ts ih.3 in
        (ih.0 ∙ append_assoc out (t ∷ []) ts, (ground arith, ih.1), (absent.0, ih.2), (c, absent.1))
  ]
]

parse_protocols_complete :
    (ts out seen : List ℕ)
    → All (λ t. t ≢ 0) ts
    → IsDistinct ts
    → AllAbsent seen ts
    → parse_protocols ts out seen ≡ ok (out ++ ts)
unfolding parse_protocols
parse_protocols_complete [] out seen p d a = ground (arith, append-nil out)
parse_protocols_complete (t ∷ ts) out seen p d a =
    let step : (nat_eq t 0 ≡ false) = ground (arith, p.0) in
    let ih =
      parse_protocols_complete ts (out ++ t ∷ []) (t ∷ seen) p.1 d.1
        (AllAbsent-cons_complete t seen ts d.0 a.1) in
    rw (step, a.0) (ih ∙ ap ok (append_assoc out (t ∷ []) ts))

AllAbsent-nil : (ts : List ℕ) → AllAbsent [] ts
unfolding contains_nat
AllAbsent-nil [] = tt
AllAbsent-nil (t ∷ ts) = (refl, AllAbsent-nil ts)

-- The list of protocols is accepted, and kept as it is, exactly when it is not empty, has no
-- UNKNOWN protocol, and no protocol twice.
pub validate_and_parse_protocols_iff :
    (ts qs : List ℕ)
    → (validate_and_parse_protocols ts ≡ ok qs)
      ↔ ((qs ≡ ts) × (ts ≢ []) × All (λ t. t ≢ 0) ts × IsDistinct ts)
unfolding validate_and_parse_protocols
validate_and_parse_protocols_iff [] qs = (λ h. cc, λ h. absurd (h.1 refl))
validate_and_parse_protocols_iff (t ∷ ts) qs = (
  λ h. let s = parse_protocols_sound (t ∷ ts) [] [] qs h in (s.0, (λ e. cc), s.1, s.2),
  λ h. parse_protocols_complete (t ∷ ts) [] [] h.2 h.3 (AllAbsent-nil (t ∷ ts)) ∙ ap ok (sym h.0),
)

abbrev pub dot : Char
dot = "."

-- The labels, joined by dots again.
pub join_labels : List String → String
join_labels [] = String.[]
join_labels (l ∷ []) = l
join_labels (l ∷ m ∷ ls) = append l (String.◌∷◌ dot (join_labels (m ∷ ls)))

abbrev pub HasNoDot : String → Type 0
HasNoDot String.[] = Unit
HasNoDot (String.◌∷◌ c s) = (nat_eq (code c) b'.' ≡ false) × HasNoDot s

split_labels-cons : (s : String) → (l : String) × (ls : List String) × (split_labels s ≡ l ∷ ls)
unfolding split_labels
split_labels-cons String.[] = (String.[], [], refl)
split_labels-cons (String.◌∷◌ c s) =
    let (l, ls, e) = split_labels-cons s in
    elim (Bool-cases (nat_eq (code c) b'.')) [
      | inl d ↦ (String.[], split_labels s, rw d)
      | inr d ↦ (String.◌∷◌ c l, ls, rw (d, e))
    ]

join_labels-prepend :
    (c : Char) (l : String) (ls : List String)
    → join_labels (prepend c (l ∷ ls)) ≡ String.◌∷◌ c (join_labels (l ∷ ls))
unfolding join_labels prepend
join_labels-prepend c l [] = refl
join_labels-prepend c l (m ∷ ls) = append.cons c l _

join_labels-dot :
    (c : Char) (ls : List String) {l : String} {rest : List String}
    → nat_eq (code c) b'.' ≡ true
    → ls ≡ l ∷ rest
    → join_labels (String.[] ∷ ls) ≡ String.◌∷◌ c (join_labels ls)
unfolding join_labels
join_labels-dot c [] d e = cc
join_labels-dot c (m ∷ ls) d e = rw (Char-path c dot (ground arith)) (append.nil _)

-- Splitting at the dots loses nothing, and leaves labels with no dot in them.
pub join_labels-split_labels :
    (s : String) → (join_labels (split_labels s) ≡ s) × All HasNoDot (split_labels s)
unfolding split_labels
join_labels-split_labels String.[] = unfold join_labels in (refl, (tt, tt))
join_labels-split_labels (String.◌∷◌ c s) =
    let (l, ls, e) = split_labels-cons s in
    let ih = join_labels-split_labels s in
    elim (Bool-cases (nat_eq (code c) b'.')) [
      | inl d ↦ rw d (join_labels-dot c (split_labels s) d e ∙ ap (String.◌∷◌ c) ih.0, (tt, ih.1))
      | inr d ↦
          rw (d, e)
            (
              join_labels-prepend c l ls ∙ ap (String.◌∷◌ c) (rw e at ih.0),
              unfold prepend in (let n : All HasNoDot (l ∷ ls) = rw e at ih.1 in ((d, n.0), n.1)),
            )
    ]

bad_labels-nil :
    (label_errors : String → List String) (ls : List String)
    → (bad_labels label_errors ls ≡ []) ↔ All (λ l. label_errors l ≡ []) ls
unfolding bad_labels
bad_labels-nil label_errors [] = (λ h. tt, λ h. refl)
bad_labels-nil label_errors (l ∷ ls) =
    let ih = bad_labels-nil label_errors ls in
    (λ h. (ground arith, ih.0 (ground arith)), λ h. rw (h.0, ih.1 h.1))

-- A driver's name is accepted exactly when it has at most 63 bytes and each of its labels, split at
-- the dots, is a valid RFC-1035 label.
pub validate_driver_name_iff :
    (label_errors : String → List String) (n : String)
    → (validate_driver_name label_errors n ≡ none)
      ↔ ((len n ≤ 63) × All (λ l. label_errors l ≡ []) (split_labels n))
unfolding validate_driver_name
validate_driver_name_iff label_errors n =
    let ih = bad_labels-nil label_errors (split_labels n) in
    (λ h. (ground arith, ih.0 (ground arith)), λ h. rw (ih.1 h.1) (ground arith))

-- The info of a driver is accepted exactly when its name has at most 63 bytes, each label of the name
-- is valid, and its protocols are not empty, known, and all different; it is then kept unchanged.
pub validate_and_set_driver_connection_info_iff :
    (label_errors : String → List String) (n : String) (ps : List ℕ) (d : DriverInfo)
    → (validate_and_set_driver_connection_info label_errors n ps ≡ ok d) ↔ (
        (d.name ≡ n)
        × (d.supported_protocols ≡ ps)
        × (len n ≤ 63)
        × All (λ l. label_errors l ≡ []) (split_labels n)
        × (ps ≢ [])
        × All (λ t. t ≢ 0) ps
        × IsDistinct ps)
unfolding validate_and_set_driver_connection_info
validate_and_set_driver_connection_info_iff label_errors n ps d =
    let name = validate_driver_name_iff label_errors n in
    let protocols = validate_and_parse_protocols_iff ps d.supported_protocols in
    (
      λ h.
          let a = name.0 (ground arith) in
          let b = protocols.0 (ground arith) in (ground arith, b.0, a.0, a.1, b.1, b.2, b.3),
      λ h. rw (name.1 (h.2, h.3), protocols.1 (h.1, h.4, h.5, h.6)) (ground arith),
    )
