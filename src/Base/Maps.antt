-- ===== src/Base/Maps.antt =====
-- Go's `map` as an association list: the first entry of a key is its value. The order of the
-- entries stands for the order in which `range` visits the map.
use Prim.Native.Nat.{ℕ, ◌+◌, ◌≤◌}
use Prim.Native.String.{String}
use mathlib.Core.Path.{◌≡◌, refl, ◌∙◌}
use mathlib.Core.Logic.{◌↔◌, inl, inr}
use mathlib.Core.Bool.{Bool, true, false}
use mathlib.Core.Option.{Option, none, some}
use mathlib.Core.List.{List, [], ◌∷◌}
use native.Mathlib.Omega.{arith}
use text.Mathlib.Text.{◌==◌ as str_eq}
use text.Mathlib.TextEquality.{eq_iff}
use utilities.Base.Tests.{eqb, eqb_iff, if◌then◌else◌, Bool-cases}
use utilities.Base.Lists.{length}

-- A key type has a test for equality.
pub record Keyed {ℓ} (A : Type ℓ) : Type ℓ where
  pub same : A → A → Bool
  pub same_iff : (k j : A) → (same k j ≡ true) ↔ (k ≡ j)

infix 50 ◌==◌
abbrev pub ◌==◌ {ℓ} : {A : Type ℓ} ⦃e : Keyed A⦄ → A → A → Bool
◌==◌ ⦃e⦄ = e.same

instance abbrev pub nat_keyed : Keyed ℕ
nat_keyed = record { same = eqb; same_iff = eqb_iff }

instance abbrev pub string_keyed : Keyed String
string_keyed = record { same = str_eq; same_iff = eq_iff }

module _ {ℓ} {A : Type ℓ} ⦃e : Keyed A⦄ where
  pub same_refl : (a : A) → (a == a) ≡ true
  same_refl a = (e.same_iff a a).1 refl

  pub other_way : (k j : A) → (k == j) ≡ false → (j == k) ≡ false
  other_way k j h = ground (arith, e.same_iff k j, e.same_iff j k)

abbrev pub Dict {ℓ κ} : Type ℓ → Type κ → Type (ℓ ⊔ κ)
Dict K V = List (K × V)

module _ {ℓ κ} {K : Type ℓ} {V : Type κ} ⦃e : Keyed K⦄ where
  unfoldable pub lookup : K → Dict K V → Option V
  lookup key [] = none
  lookup key ((name, value) ∷ entries) = if name == key then some value else lookup key entries

  -- `m[k] = v`
  unfoldable pub insert : K → V → Dict K V → Dict K V
  insert key value [] = (key, value) ∷ []
  insert key value ((name, old) ∷ entries) =
      if name == key then (name, value) ∷ entries else (name, old) ∷ insert key value entries

  -- `delete(m, k)`
  unfoldable pub delete : K → Dict K V → Dict K V
  delete k [] = []
  delete k ((j, w) ∷ m) = let rest = delete k m in if j == k then rest else (j, w) ∷ rest

  -- `_, ok := m[k]`
  abbrev pub has : K → Dict K V → Bool
  has k m = elim (lookup k m) [ none ↦ false | some _ ↦ true ]

  pub lookup-insert :
      (key other : K) (value : V) (entries : Dict K V)
      → lookup other (insert key value entries)
        ≡ (if key == other then some value else lookup other entries)
  unfolding lookup insert
  lookup-insert key other value [] = refl
  lookup-insert key other value ((name, old) ∷ entries) = ground (
    arith,
    e.same_iff key other,
    e.same_iff name key,
    e.same_iff name other,
    lookup-insert key other value entries,
  )

  pub lookup-delete :
      (k j : K) (m : Dict K V) → lookup j (delete k m) ≡ (if k == j then none else lookup j m)
  unfolding lookup delete
  lookup-delete k j [] = ground arith
  lookup-delete k j ((i, w) ∷ m) =
      ground (arith, e.same_iff k j, e.same_iff i k, e.same_iff i j, lookup-delete k j m)

  pub length-delete-le : (k : K) (m : Dict K V) → length (delete k m) ≤ length m
  unfolding delete
  length-delete-le k [] = omega arith
  length-delete-le k ((i, w) ∷ m) = ground (arith, length-delete-le k m)

  pub length-insert-le : (k : K) (v : V) (m : Dict K V) → length (insert k v m) ≤ length m + 1
  unfolding insert
  length-insert-le k v [] = omega arith
  length-insert-le k v ((i, w) ∷ m) = ground (arith, length-insert-le k v m)

  pub lookup_of_has : (k : K) (m : Dict K V) → has k m ≡ false → lookup k m ≡ none
  lookup_of_has k m h =
      elim (lookup k m) as (λ o. elim o [ none ↦ false | some _ ↦ true ] ≡ false → o ≡ none) [
        | none ↦ λ e. refl
        | some v ↦ λ e. cc
      ]
        h

  -- Each key has one entry.
  abbrev pub IsUnique : Dict K V → Type κ
  IsUnique [] = Unit
  IsUnique ((key, value) ∷ entries) = (lookup key entries ≡ none) × IsUnique entries

  pub insert-IsUnique :
      (key : K) (value : V) (entries : Dict K V)
      → IsUnique entries
      → IsUnique (insert key value entries)
  unfolding insert lookup
  insert-IsUnique key value [] unique = (refl, tt)
  insert-IsUnique key value ((name, old) ∷ entries) (once, unique) =
      elim (Bool-cases (name == key)) [
        | inl same ↦ rw same (once, unique)
        | inr differs ↦ rw differs (
          lookup-insert key name value entries ∙ rw (other_way name key differs) once,
          insert-IsUnique key value entries unique,
        )
      ]

  pub delete-IsUnique :
      (key : K) (entries : Dict K V) → IsUnique entries → IsUnique (delete key entries)
  unfolding delete lookup
  delete-IsUnique key [] unique = tt
  delete-IsUnique key ((name, old) ∷ entries) (once, unique) = elim (Bool-cases (name == key)) [
    | inl same ↦ rw same (delete-IsUnique key entries unique)
    | inr differs ↦ rw differs (
      lookup-delete key name entries ∙ rw (other_way name key differs) once,
      delete-IsUnique key entries unique,
    )
  ]
