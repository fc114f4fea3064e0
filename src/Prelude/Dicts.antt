-- ===== src/Prelude/Dicts.antt =====
-- Go's `map[string]V` as an association list with one entry for each key. A nil map reads like an
-- empty one. `range` over a map visits the entries in the list's order.
use Prim.Native.Nat.{ℕ}
use Prim.Native.String.{String}
use mathlib.Core.Path.{◌≡◌, refl}
use mathlib.Core.Bool.{Bool}
use mathlib.Core.Option.{Option, none, some}
use mathlib.Core.List.{List, [], ◌∷◌}
use native.Mathlib.Omega.{arith}
use text.Mathlib.Text.{◌==◌}
use text.Mathlib.TextEquality.{eq_iff}
use text.Mathlib.TextPositions.{eq_refl}
use mathlib.Core.Logic.{inl, inr}
use container_object_storage.Prelude.Tests.{All, Bool-cases, if◌then◌else◌, length, is_some, deref}

abbrev pub Dict {ℓ} : Type ℓ → Type ℓ
Dict V = List (String × V)

module _ {ℓ} {V : Type ℓ} where
  -- v, ok := m[k]
  unfoldable pub dict_get : Dict V → String → Option V
  dict_get [] k = none
  dict_get ((j, v) ∷ m) k = if j == k then some v else dict_get m k

  -- m[k] = v
  unfoldable pub dict_set : Dict V → String → V → Dict V
  dict_set [] k v = (k, v) ∷ []
  dict_set ((j, w) ∷ m) k v = if j == k then (k, v) ∷ m else (j, w) ∷ dict_set m k v

  -- delete(m, k)
  unfoldable pub dict_delete : Dict V → String → Dict V
  dict_delete [] k = []
  dict_delete ((j, w) ∷ m) k = let rest = dict_delete m k in if j == k then rest else (j, w) ∷ rest

  abbrev pub dict_has : Dict V → String → Bool
  dict_has m k = is_some (dict_get m k)

  -- len(m)
  abbrev pub dict_size : Dict V → ℕ
  dict_size m = length m

  unfoldable pub dict_keys : Dict V → List String
  dict_keys [] = []
  dict_keys ((k, v) ∷ m) = k ∷ dict_keys m

  -- for k, v := range from { target[k] = v }
  unfoldable pub dict_merge : Dict V → Dict V → Dict V
  dict_merge [] target = target
  dict_merge ((k, v) ∷ m) target = dict_merge m (dict_set target k v)

  pub dict_get-dict_set :
      (m : Dict V) (k j : String) (v : V)
      → dict_get (dict_set m k v) j ≡ (if k == j then some v else dict_get m j)
  unfolding dict_get dict_set
  dict_get-dict_set [] k j v = refl
  dict_get-dict_set ((i, w) ∷ m) k j v =
      ground (arith, eq_iff k j, eq_iff i k, eq_iff i j, dict_get-dict_set m k j v)

  pub dict_get-dict_delete :
      (m : Dict V) (k j : String)
      → dict_get (dict_delete m k) j ≡ (if k == j then none else dict_get m j)
  unfolding dict_get dict_delete
  dict_get-dict_delete [] k j = ground arith
  dict_get-dict_delete ((i, w) ∷ m) k j =
      ground (arith, eq_iff k j, eq_iff i k, eq_iff i j, dict_get-dict_delete m k j)

  -- No key of the first map occurs twice, as in every Go map.
  abbrev pub HasUniqueKeys : Dict V → Type ℓ
  HasUniqueKeys [] = Unit
  HasUniqueKeys ((k, v) ∷ m) = (dict_get m k ≡ none) × HasUniqueKeys m

  pub dict_set-HasUniqueKeys :
      (m : Dict V) (k : String) (v : V) → HasUniqueKeys m → HasUniqueKeys (dict_set m k v)
  unfolding dict_get dict_set
  dict_set-HasUniqueKeys [] k v u = (refl, tt)
  dict_set-HasUniqueKeys ((j, w) ∷ m) k v u = elim (Bool-cases (j == k)) [
    | inl e ↦ rw e (rw ((eq_iff j k).0 e) at u.0, u.1)
    | inr e ↦ rw e (
      ground (arith, eq_iff j k, eq_iff k j, dict_get-dict_set m k j v, u.0),
      dict_set-HasUniqueKeys m k v u.1,
    )
  ]

  -- In a map with unique keys every entry is the one that is found at its key.
  pub Entries-dict_get : (m : Dict V) → HasUniqueKeys m → All (λ e. dict_get m e.0 ≡ some e.1) m
  unfolding dict_get
  Entries-dict_get [] u = tt
  Entries-dict_get ((j, w) ∷ m) u = (rw eq_refl, later m (Entries-dict_get m u.1))
    where
      later :
          (es : List (String × V))
          → All (λ e. dict_get m e.0 ≡ some e.1) es
          → All (λ e. dict_get ((j, w) ∷ m) e.0 ≡ some e.1) es
      later [] h = tt
      later ((k, v) ∷ es) h = (ground (arith, eq_iff j k, u.0, h.0), later es h.1)

  pub dict_get-All {κ} :
      (P : String × V → Type κ) (m : Dict V) (k : String) (v : V)
      → All P m
      → dict_get m k ≡ some v
      → P (k, v)
  unfolding dict_get
  dict_get-All P [] k v a e = cc
  dict_get-All P ((j, w) ∷ m) k v a e = elim (Bool-cases (j == k)) [
    | inl p ↦
        let q : some w ≡ some v = rw p at e in
        let t : w ≡ v = cc in rw (← (eq_iff j k).0 p, ← t) a.0
    | inr p ↦ dict_get-All P m k v a.1 (rw p at e)
  ]

  pub dict_get-dict_merge :
      (m target : Dict V) (j : String)
      → HasUniqueKeys m
      → dict_get (dict_merge m target) j
        ≡ (if dict_has m j then dict_get m j else dict_get target j)
  unfolding dict_get dict_merge
  dict_get-dict_merge [] target j u = refl
  dict_get-dict_merge ((k, v) ∷ m) target j u = ground (
    arith,
    eq_iff k j,
    dict_get-dict_merge m (dict_set target k v) j u.1,
    dict_get-dict_set target k j v,
  )

-- The value at a key of a map of texts; a missing key reads as the empty text.
abbrev pub dict_get_or : Dict String → String → String
dict_get_or m k = deref (dict_get m k) ""

pub ruleset dict_laws = (dict_get-dict_set, dict_get-dict_delete)
