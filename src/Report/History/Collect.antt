-- ===== src/Report/History/Collect.antt =====
-- report.go: what the first half of FlushFinalized picks, and what the second half does with it.
use utilities.Base.{
  ℕ, zero, suc, ◌+◌, ◌<◌, ◌≡◌, refl, sym, subst, ◌⊎◌, inl, inr, Bool, true, false, none, some, List,
  [], ◌∷◌, length, length-set, get_elem?, get_elem?_of_lt, arith, ◌∙◌, ap, Any, Option-cases,
}
use utilities.Report.Record.{FileRecord}
use utilities.Report.Store.{Store}
use utilities.Report.Flush.{Finality, Batch, take_row, collect, release, commit}
use utilities.Report.Bounds.{IsBounded, Below, release-IsBounded}
use utilities.Report.History.Slots.{Slots, IsReleased, Keeps, set-IsReleased}

pub length-collect : (f : Finality) (i : ℕ) (rs : Slots) → length (collect f i rs).slots ≡ length rs
unfolding collect
length-collect f i [] = refl
length-collect f i (none ∷ rs) = ap suc (length-collect f (suc i) rs)
length-collect f i (some r ∷ rs) = ground (arith, length-collect f (suc i) rs)

-- One row for each index.
pub rows-indices :
    (f : Finality) (i : ℕ) (rs : Slots)
    → length (collect f i rs).rows ≡ length (collect f i rs).indices
unfolding collect
rows-indices f i [] = refl
rows-indices f i (none ∷ rs) = rows-indices f (suc i) rs
rows-indices f i (some r ∷ rs) = ground (arith, rows-indices f (suc i) rs)

take_row-Keeps :
    (final : Bool) (i : ℕ) (r r' : FileRecord) (rs : Slots) (b : Batch)
    → Keeps rs b.slots
    → Keeps (some r ∷ rs) (take_row final i r' b).slots
take_row-Keeps true i r r' rs b k zero h = cc
take_row-Keeps true i r r' rs b k (suc j) h = k j h
take_row-Keeps false i r r' rs b k zero h = cc
take_row-Keeps false i r r' rs b k (suc j) h = k j h

pub collect-Keeps : (f : Finality) (i : ℕ) (rs : Slots) → Keeps rs (collect f i rs).slots
unfolding collect
collect-Keeps f i [] j h = h
collect-Keeps f i (none ∷ rs) zero h = h
collect-Keeps f i (none ∷ rs) (suc j) h = collect-Keeps f (suc i) rs j h
collect-Keeps f i (some r ∷ rs) j h =
    take_row-Keeps (f r).1 i r (f r).0 rs (collect f (suc i) rs) (collect-Keeps f (suc i) rs) j h

take_row-Below :
    (final : Bool) (n i : ℕ) (r : FileRecord) (b : Batch)
    → i < n
    → Below n b.indices
    → Below n (take_row final i r b).indices
take_row-Below true n i r b h below = (h, below)
take_row-Below false n i r b h below = below

-- The indices that are picked are those of slots.
pub collect-Below :
    (f : Finality) (n i : ℕ) (rs : Slots) → i + length rs ≡ n → Below n (collect f i rs).indices
unfolding collect
collect-Below f n i [] e = tt
collect-Below f n i (none ∷ rs) e = collect-Below f n (suc i) rs (omega arith)
collect-Below f n i (some r ∷ rs) e =
    take_row-Below (f r).1 n i (f r).0 (collect f (suc i) rs) (omega arith)
      (collect-Below f n (suc i) rs (omega arith))

-- Nothing is released between two lists of slots but the given indices.
abbrev pub Releases : List ℕ → Slots → Slots → Type 0
Releases is rs rs' = (j : ℕ) → IsReleased rs' j → IsReleased rs j ⊎ Any (λ i. i ≡ j) is

abbrev pub Commits : Store → List ℕ → Type 0
Commits s is =
    (t : Store) × (commit s is ≡ some t)
    × IsBounded t
    × (length t.records ≡ length s.records)
    × Releases is s.records t.records

-- An index whose slot another flush has emptied.
commit_skip :
    (s : Store) (i : ℕ) (is : List ℕ)
    → get_elem? s.records i ≡ some none
    → Commits s is
    → Commits s (i ∷ is)
unfolding commit
commit_skip s i is e (t, done, b, len, rel) = (
  t,
  rw (commit, e) done,
  b,
  len,
  λ j h. elim (rel j h) [ inl released ↦ inl released | inr at ↦ inr (inr at) ],
)

commit_release :
    (s : Store) (i : ℕ) (is : List ℕ) (r : FileRecord)
    → get_elem? s.records i ≡ some (some r)
    → Commits (release s i r) is
    → Commits s (i ∷ is)
unfolding commit release
commit_release s i is r e (t, done, b, len, rel) = (
  t,
  rw (commit, e) done,
  b,
  len ∙ length-set {0} s.records i none,
  λ j h. elim (rel j h) [
    | inl released ↦ elim (set-IsReleased s.records i j released) [
      | inl before ↦ inl before
      | inr here ↦ inr (inl (sym here))
    ]
    | inr at ↦ inr (inr at)
  ],
)

release-Below :
    (s : Store) (i : ℕ) (r : FileRecord) (is : List ℕ)
    → Below (length s.records) is
    → Below (length (release s i r).records) is
unfolding release
release-Below s i r is = subst (λ n. Below n is) (sym (length-set s.records i none))

-- The second half returns on indices in range, however many of the slots another flush has
-- emptied; it keeps the bounds, and empties no slot but those of the indices.
pub commit-Releases :
    (s : Store) (is : List ℕ) → IsBounded s → Below (length s.records) is → Commits s is
unfolding commit
commit-Releases s [] b h = (s, refl, b, refl, λ j e. inl e)
commit-Releases s (i ∷ is) b h =
    let (slot, e) = get_elem?_of_lt s.records i h.0 in
    elim (Option-cases slot) [
      | inl empty ↦ commit_skip s i is (e ∙ ap some empty) (commit-Releases s is b h.1)
      | inr (r, row) ↦ commit_release s i is r (e ∙ ap some row) (
          commit-Releases (release s i r) is (release-IsBounded s i r b)
            (release-Below s i r is h.1))
    ]
