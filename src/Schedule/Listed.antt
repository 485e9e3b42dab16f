-- ===== src/Schedule/Listed.antt =====
-- schedule.go: the order in which the schedules are listed.
use utilities.Base.{
  ℕ, ◌≤◌, inl, inr, String, List, [], ◌∷◌, All, Dict, string_keyed, leb, arith, Bool-cases,
}
use utilities.Schedule.Entry.{Schedule, insert_by_time, sort_by_time, list}

module _ {Config : Type 0} where
  abbrev pub IsSorted : List (Schedule Config) → Type 0
  IsSorted [] = Unit
  IsSorted (s ∷ ss) = All (λ t. s.run_at ≤ t.run_at) ss × IsSorted ss

  All-later :
      (a b : ℕ) (ss : List (Schedule Config))
      → a ≤ b
      → All (λ t. b ≤ t.run_at) ss
      → All (λ t. a ≤ t.run_at) ss
  All-later a b [] h all = tt
  All-later a b (s ∷ ss) h all = (omega arith, All-later a b ss h all.1)

  insert_by_time-All :
      (P : Schedule Config → Type 0) (s : Schedule Config) (ss : List (Schedule Config))
      → P s
      → All P ss
      → All P (insert_by_time s ss)
  unfolding insert_by_time
  insert_by_time-All P s [] h all = (h, tt)
  insert_by_time-All P s (t ∷ ts) h all = elim (Bool-cases (leb s.run_at t.run_at)) [
    | inl e ↦ rw (e, insert_by_time) (h, all)
    | inr e ↦ rw (e, insert_by_time) (all.0, insert_by_time-All P s ts h all.1)
  ]

  insert_by_time-IsSorted :
      (s : Schedule Config) (ss : List (Schedule Config))
      → IsSorted ss
      → IsSorted (insert_by_time s ss)
  unfolding insert_by_time
  insert_by_time-IsSorted s [] sorted = (tt, tt)
  insert_by_time-IsSorted s (t ∷ ts) sorted = elim (Bool-cases (leb s.run_at t.run_at)) [
    | inl e ↦
        let le : s.run_at ≤ t.run_at = ground arith in
        rw (e, insert_by_time) ((le, All-later s.run_at t.run_at ts le sorted.0), sorted)
    | inr e ↦
        rw (e, insert_by_time)
          (
            insert_by_time-All (λ u. t.run_at ≤ u.run_at) s ts (ground arith) sorted.0,
            insert_by_time-IsSorted s ts sorted.1,
          )
  ]

  pub sort_by_time-IsSorted : (ss : List (Schedule Config)) → IsSorted (sort_by_time ss)
  unfolding sort_by_time
  sort_by_time-IsSorted [] = tt
  sort_by_time-IsSorted (s ∷ ss) =
      insert_by_time-IsSorted s (sort_by_time ss) (sort_by_time-IsSorted ss)

  -- What holds of the schedule of each file holds of each that is listed.
  pub list-All :
      (P : Schedule Config → Type 0) (files : Dict String (Schedule Config))
      → All (λ f. P f.1) files
      → All P (list files)
  unfolding list sort_by_time
  list-All P [] all = tt
  list-All P (f ∷ files) all = insert_by_time-All P f.1 (list files) all.0 (list-All P files all.1)
