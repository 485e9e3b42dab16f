-- ===== src/Base/Sorting.antt =====
-- Go's `sort.Slice` on a `less`, as an insertion sort, and lists that are searched and filtered.

use mathlib.Core.Path.{◌≡◌}
use mathlib.Core.Logic.{◌⊎◌, inl, inr}
use mathlib.Core.Bool.{Bool, true}
use mathlib.Core.List.{List, [], ◌∷◌, map}
use utilities.Base.Tests.{if◌then◌else◌, Bool-cases}
use utilities.Base.Lists.{All}

module _ {ℓ} {A : Type ℓ} where
  abbrev pub Any : (A → Type 0) → List A → Type 0
  Any P [] = ⊥
  Any P (x ∷ xs) = P x ⊎ Any P xs

  -- Before the first element that is not smaller.
  unfoldable pub insert_by : (A → A → Bool) → A → List A → List A
  insert_by less a [] = a ∷ []
  insert_by less a (x ∷ xs) =
      let rest = insert_by less a xs in if less x a then x ∷ rest else a ∷ x ∷ xs

  unfoldable pub sort_by : (A → A → Bool) → List A → List A
  unfolding insert_by
  sort_by less [] = []
  sort_by less (x ∷ xs) = insert_by less x (sort_by less xs)

  unfoldable pub keep : (A → Bool) → List A → List A
  keep test [] = []
  keep test (x ∷ xs) = let rest = keep test xs in if test x then x ∷ rest else rest

module _ {ℓ} {A : Type ℓ} (P : A → Type 0) where
  Any-insert_by :
      (less : A → A → Bool) (a : A) (xs : List A) → P a ⊎ Any P xs → Any P (insert_by less a xs)
  unfolding insert_by
  Any-insert_by less a [] h = h
  Any-insert_by less a (x ∷ xs) h = elim (Bool-cases (less x a)) [
    | inl e ↦ rw e (elim h [
      | inl p ↦ inr (Any-insert_by less a xs (inl p))
      | inr (inl p) ↦ inl p
      | inr (inr p) ↦ inr (Any-insert_by less a xs (inr p))
    ])
    | inr e ↦ rw e h
  ]

  pub Any-sort_by : (less : A → A → Bool) (xs : List A) → Any P xs → Any P (sort_by less xs)
  unfolding sort_by
  Any-sort_by less [] h = h
  Any-sort_by less (x ∷ xs) (inl p) = Any-insert_by less x (sort_by less xs) (inl p)
  Any-sort_by less (x ∷ xs) (inr p) =
      Any-insert_by less x (sort_by less xs) (inr (Any-sort_by less xs p))

  All-insert_by :
      (less : A → A → Bool) (a : A) (xs : List A) → P a → All P xs → All P (insert_by less a xs)
  unfolding insert_by
  All-insert_by less a [] p all = (p, tt)
  All-insert_by less a (x ∷ xs) p all = elim (Bool-cases (less x a)) [
    | inl e ↦ rw e (all.0, All-insert_by less a xs p all.1)
    | inr e ↦ rw e (p, all)
  ]

  pub All-sort_by : (less : A → A → Bool) (xs : List A) → All P xs → All P (sort_by less xs)
  unfolding sort_by
  All-sort_by less [] all = tt
  All-sort_by less (x ∷ xs) all =
      All-insert_by less x (sort_by less xs) all.0 (All-sort_by less xs all.1)

  -- What a filter keeps has passed the test, and whatever passes it is kept.
  pub All-keep :
      (test : A → Bool) (xs : List A) → ((x : A) → test x ≡ true → P x) → All P (keep test xs)
  unfolding keep
  All-keep test [] f = tt
  All-keep test (x ∷ xs) f = elim (Bool-cases (test x)) [
    | inl e ↦ rw e (f x e, All-keep test xs f)
    | inr e ↦ rw e (All-keep test xs f)
  ]

  pub Any-keep :
      (test : A → Bool) (xs : List A)
      → ((x : A) → P x → test x ≡ true)
      → Any P xs
      → Any P (keep test xs)
  unfolding keep
  Any-keep test [] f h = h
  Any-keep test (x ∷ xs) f h = elim (Bool-cases (test x)) [
    | inl e ↦ rw e (elim h [ inl p ↦ inl p | inr p ↦ inr (Any-keep test xs f p) ])
    | inr e ↦ rw e (elim h [ inl p ↦ let passes = f x p in cc | inr p ↦ Any-keep test xs f p ])
  ]

module _ {ℓ κ} {A : Type ℓ} {B : Type κ} where
  pub Any-map :
      (P : B → Type 0) (f : A → B) (xs : List A) → Any (λ x. P (f x)) xs → Any P (map f xs)
  Any-map P f [] h = h
  Any-map P f (x ∷ xs) (inl p) = inl p
  Any-map P f (x ∷ xs) (inr p) = inr (Any-map P f xs p)
