-- ===== src/Prelude/Dicts.antt =====
-- A Python dict keyed by texts, in insertion order: a write to a present key keeps its place.
use Prim.Native.Nat.{ℕ, ◌+◌, ◌≤◌}
use Prim.Native.String.{String}
use mathlib.Core.Path.{◌≡◌, ◌∙◌, refl, subst}
use mathlib.Core.Bool.{Bool, false}
use mathlib.Core.Logic.{inl, inr}
use mathlib.Core.Option.{Option, none, some}
use mathlib.Core.List.{List, [], ◌∷◌}
use native.Mathlib.Omega.{arith}
use blackbase.Prelude.Tests.{if◌then◌else◌, str_eq, str_eq_iff, Bool-cases}

abbrev pub Dict {ℓ} : Type ℓ → Type ℓ
Dict V = List (String × V)

module _ {ℓ} {V : Type ℓ} where
  abbrev pub lookup : String → Dict V → Option V
  lookup k [] = none
  lookup k ((j, v) ∷ d) = if str_eq j k then some v else lookup k d

  -- `d[k] = v`.
  abbrev pub insert : String → V → Dict V → Dict V
  insert k v [] = (k, v) ∷ []
  insert k v ((j, w) ∷ d) = if str_eq j k then (j, v) ∷ d else (j, w) ∷ insert k v d

  -- `d.pop(k, None)`.
  abbrev pub erase : String → Dict V → Dict V
  erase k [] = []
  erase k ((j, w) ∷ d) = let rest = erase k d in if str_eq j k then rest else (j, w) ∷ rest

  abbrev pub values : Dict V → List V
  values [] = []
  values ((j, v) ∷ d) = v ∷ values d

  abbrev pub keys : Dict V → List String
  keys [] = []
  keys ((j, v) ∷ d) = j ∷ keys d

  pub lookup-insert :
      (k j : String) (v : V) (d : Dict V)
      → lookup j (insert k v d) ≡ (if str_eq k j then some v else lookup j d)
  lookup-insert k j v [] = refl
  lookup-insert k j v ((i, w) ∷ d) =
      ground (arith, str_eq_iff k j, str_eq_iff i k, str_eq_iff i j, lookup-insert k j v d)

  pub lookup-erase :
      (k j : String) (d : Dict V) → lookup j (erase k d) ≡ (if str_eq k j then none else lookup j d)
  lookup-erase k j [] = ground arith
  lookup-erase k j ((i, w) ∷ d) =
      ground (arith, str_eq_iff k j, str_eq_iff i k, str_eq_iff i j, lookup-erase k j d)

-- Folding and mapping the values.
module _ {ℓ} {V : Type ℓ} where
  abbrev pub map_values : (V → V) → Dict V → Dict V
  map_values f [] = []
  map_values f ((k, v) ∷ d) = (k, f v) ∷ map_values f d

  -- The sum of a measure over the values.
  abbrev pub total : (V → ℕ) → Dict V → ℕ
  total g [] = 0
  total g ((k, v) ∷ d) = g v + total g d

  -- The number of values that pass a test.
  abbrev pub count_values : (V → Bool) → Dict V → ℕ
  count_values p = total (λ v. if p v then 1 else 0)

  pub lookup-map_values :
      (f : V → V) (k : String) (d : Dict V)
      → lookup k (map_values f d) ≡ elim (lookup k d) [ none ↦ none | some v ↦ some (f v) ]
  lookup-map_values f k [] = refl
  lookup-map_values f k ((j, v) ∷ d) = elim (Bool-cases (str_eq j k)) [
    | inl hit ↦ rw hit
    | inr miss ↦ rw miss (lookup-map_values f k d)
  ]

  -- A write replaces what the key counted for.
  pub total-insert :
      (g : V → ℕ) (k : String) (v old : V) (d : Dict V)
      → lookup k d ≡ some old
      → total g (insert k v d) + g old ≡ total g d + g v
  total-insert g k v old [] h = cc
  total-insert g k v old ((j, w) ∷ d) h = elim (Bool-cases (str_eq j k)) [
    | inl hit ↦ ground arith
    | inr miss ↦ ground (arith, total-insert g k v old d)
  ]

  pub total-insert_new :
      (g : V → ℕ) (k : String) (v : V) (d : Dict V)
      → lookup k d ≡ none
      → total g (insert k v d) ≡ total g d + g v
  total-insert_new g k v [] h = omega arith
  total-insert_new g k v ((j, w) ∷ d) h = ground (arith, total-insert_new g k v d)

  pub le-total :
      (g : V → ℕ) (k : String) (v : V) (d : Dict V) → lookup k d ≡ some v → g v ≤ total g d
  le-total g k v [] h = cc
  le-total g k v ((j, w) ∷ d) h = ground (arith, le-total g k v d)

  pub total-map_values-le :
      (g : V → ℕ) (f : V → V) (d : Dict V)
      → ((v : V) → g (f v) ≤ g v)
      → total g (map_values f d) ≤ total g d
  total-map_values-le g f [] h = omega arith
  total-map_values-le g f ((k, v) ∷ d) h = omega (arith, h v, total-map_values-le g f d h)

  pub total-map_values :
      (g : V → ℕ) (f : V → V) (d : Dict V)
      → ((v : V) → g (f v) ≡ g v)
      → total g (map_values f d) ≡ total g d
  total-map_values g f [] h = refl
  total-map_values g f ((k, v) ∷ d) h = omega (arith, h v, total-map_values g f d h)

  -- Writing what is there changes nothing.
  pub insert_self : (k : String) (v : V) (d : Dict V) → lookup k d ≡ some v → insert k v d ≡ d
  insert_self k v [] h = cc
  insert_self k v ((j, w) ∷ d) h = elim (Bool-cases (str_eq j k)) [
    | inl hit ↦ ground arith
    | inr miss ↦ ground (arith, insert_self k v d)
  ]

-- A predicate that holds of every value.
abbrev pub AllValues {ℓ κ} : {V : Type ℓ} → (V → Type κ) → Dict V → Type κ
AllValues P [] = Unit
AllValues P ((k, v) ∷ d) = P v × AllValues P d

module _ {ℓ κ} {V : Type ℓ} (P : V → Type κ) where
  pub AllValues-lookup :
      (k : String) (v : V) (d : Dict V) → AllValues P d → lookup k d ≡ some v → P v
  AllValues-lookup k v [] a h = cc
  AllValues-lookup k v ((j, w) ∷ d) a h = elim (Bool-cases (str_eq j k)) [
    | inl hit ↦ subst P (ground arith) a.0
    | inr miss ↦ AllValues-lookup k v d a.1 (ground arith)
  ]

  pub AllValues-insert :
      (k : String) (v : V) (d : Dict V) → AllValues P d → P v → AllValues P (insert k v d)
  AllValues-insert k v [] a p = (p, tt)
  AllValues-insert k v ((j, w) ∷ d) a p = elim (Bool-cases (str_eq j k)) [
    | inl hit ↦ rw hit (p, a.1)
    | inr miss ↦ rw miss (a.0, AllValues-insert k v d a.1 p)
  ]

  pub AllValues-map_values :
      (f : V → V) (d : Dict V)
      → ((v : V) → P v → P (f v))
      → AllValues P d
      → AllValues P (map_values f d)
  AllValues-map_values f [] h a = tt
  AllValues-map_values f ((k, v) ∷ d) h a = (h v a.0, AllValues-map_values f d h a.1)

  pub AllValues-weaken {μ} :
      (Q : V → Type μ) (d : Dict V) → ((v : V) → P v → Q v) → AllValues P d → AllValues Q d
  AllValues-weaken Q [] h a = tt
  AllValues-weaken Q ((k, v) ∷ d) h a = (h v a.0, AllValues-weaken Q d h a.1)

pub total-zero {ℓ} :
    {V : Type ℓ} (g : V → ℕ) (d : Dict V) → AllValues (λ v. g v ≡ 0) d → total g d ≡ 0
total-zero g [] a = refl
total-zero g ((k, v) ∷ d) a = omega (arith, a.0, total-zero g d a.1)

-- No key twice.
abbrev pub KeysApart {ℓ} : {V : Type ℓ} → Dict V → Type ℓ
KeysApart [] = Unit
KeysApart ((k, v) ∷ d) = (lookup k d ≡ none) × KeysApart d

module _ {ℓ} {V : Type ℓ} where
  insert-absent :
      (k j : String) (v : V) (d : Dict V)
      → str_eq k j ≡ false
      → lookup j d ≡ none
      → lookup j (insert k v d) ≡ none
  insert-absent k j v d miss h = lookup-insert k j v d ∙ rw miss h

  pub insert-KeysApart : (k : String) (v : V) (d : Dict V) → KeysApart d → KeysApart (insert k v d)
  insert-KeysApart k v [] a = (refl, tt)
  insert-KeysApart k v ((j, w) ∷ d) a = elim (Bool-cases (str_eq j k)) [
    | inl same ↦ rw same (a.0, a.1)
    | inr other ↦
        let back : str_eq k j ≡ false = ground (arith, str_eq_iff k j, str_eq_iff j k, other) in
        rw other (insert-absent k j v d back a.0, insert-KeysApart k v d a.1)
  ]

  pub erase-KeysApart : (k : String) (d : Dict V) → KeysApart d → KeysApart (erase k d)
  erase-KeysApart k [] a = tt
  erase-KeysApart k ((j, w) ∷ d) a = elim (Bool-cases (str_eq j k)) [
    | inl same ↦ rw same (erase-KeysApart k d a.1)
    | inr other ↦
        let back : str_eq k j ≡ false = ground (arith, str_eq_iff k j, str_eq_iff j k, other) in
        rw other (lookup-erase k j d ∙ rw back a.0, erase-KeysApart k d a.1)
  ]
