-- ===== src/Schedule/Settled.antt =====
-- schedule.go: what is left of a schedule that has fired.
use utilities.Base.{
  insert, IsUnique, delete-IsUnique, ◌==◌, delete, zero, suc, ◌+◌, ◌<◌, ◌≡◌, refl, subst, ◌⊎◌, inl,
  inr, String, true, false, none, [], ◌∷◌, All, Dict, lookup, string_keyed, arith, Bool-cases, ℤ,
  pos, negsuc,
}
use utilities.Schedule.Entry.{Schedule, list, sanitize_id}
use utilities.Schedule.Sweep.{World, advance, remove, settle_every}
use utilities.Schedule.Advance.{advance-IsNext}
use utilities.Schedule.Listed.{list-All}

module _ {Config : Type 0} where
  -- No schedule that is listed with this id is due.
  abbrev pub IsSettled : World Config → String → Dict String (Schedule Config) → Type 0
  IsSettled w id files = All (λ t. ((t.id == id) ≡ false) ⊎ (w.now < t.run_at)) (list files)

  -- Each file of the directory is named for the id of its schedule, as `save` names it.
  abbrev pub AreNamed : Dict String (Schedule Config) → Type 0
  AreNamed files = All (λ f. f.0 ≡ f.1.id) files × IsUnique files

  -- `delete` takes the id as it is.
  abbrev pub IsClean : World Config → String → Type 0
  IsClean w id = (sanitize_id w.trim_space id ≡ id) × ((id == "") ≡ false)

  abbrev AreSettled : World Config → String → Dict String (Schedule Config) → Type 0
  AreSettled w id files = All (λ f. ((f.1.id == id) ≡ false) ⊎ (w.now < f.1.run_at)) files

  delete-Named :
      (id : String) (files : Dict String (Schedule Config))
      → All (λ f. f.0 ≡ f.1.id) files
      → All (λ f. f.0 ≡ f.1.id) (delete id files)
  unfolding delete
  delete-Named id [] named = tt
  delete-Named id (f ∷ files) named = elim (Bool-cases (f.0 == id)) [
    | inl e ↦ rw (e, delete) (delete-Named id files named.1)
    | inr e ↦ rw (e, delete) (named.0, delete-Named id files named.1)
  ]

  pub remove-AreNamed :
      (w : World Config) (id : String) (files : Dict String (Schedule Config))
      → AreNamed files
      → AreNamed (remove w id files)
  unfolding remove
  remove-AreNamed w id files (named, unique) =
      let clean = sanitize_id w.trim_space id in
      elim (Bool-cases (clean == "")) [
        | inl bad ↦ rw (bad, remove) (named, unique)
        | inr good ↦ elim (Bool-cases w.removes) [
          | inl works ↦
              rw (good, remove, works)
                (delete-Named clean files named, delete-IsUnique clean files unique)
          | inr fails ↦ rw (good, remove, fails) (named, unique)
        ]
      ]

  delete-AreSettled :
      (w : World Config) (id : String) (files : Dict String (Schedule Config))
      → All (λ f. f.0 ≡ f.1.id) files
      → AreSettled w id (delete id files)
  unfolding delete
  delete-AreSettled w id [] named = tt
  delete-AreSettled w id (f ∷ files) named = elim (Bool-cases (f.0 == id)) [
    | inl e ↦ rw (e, delete) (delete-AreSettled w id files named.1)
    | inr e ↦
        rw (e, delete)
          (
            inl (subst (λ name. (name == id) ≡ false) named.0 e),
            delete-AreSettled w id files named.1,
          )
  ]

  absent-AreSettled :
      (w : World Config) (id : String) (files : Dict String (Schedule Config))
      → lookup id files ≡ none
      → All (λ f. f.0 ≡ f.1.id) files
      → AreSettled w id files
  unfolding lookup
  absent-AreSettled w id [] absent named = tt
  absent-AreSettled w id (f ∷ files) absent named = elim (Bool-cases (f.0 == id)) [
    | inl e ↦ let wrong = rw (lookup, e) at absent in cc
    | inr e ↦ (
      inl (subst (λ name. (name == id) ≡ false) named.0 e),
      absent-AreSettled w id files (rw (lookup, e) at absent) named.1,
    )
  ]

  insert-AreSettled :
      (w : World Config) (id : String) (t : Schedule Config) (files : Dict String (Schedule Config))
      → w.now < t.run_at
      → AreNamed files
      → AreSettled w id (insert id t files)
  unfolding insert
  insert-AreSettled w id t [] later named = (inr later, tt)
  insert-AreSettled w id t (f ∷ files) later (named, (once, unique)) =
      elim (Bool-cases (f.0 == id)) [
        | inl e ↦
            let same : f.0 ≡ id = (string_keyed.same_iff f.0 id).0 e in
            rw (insert, e)
              (
                inr later,
                absent-AreSettled w id files (subst (λ k. lookup k files ≡ none) same once) named.1,
              )
        | inr e ↦
            rw (insert, e)
              (
                inl (subst (λ name. (name == id) ≡ false) named.0 e),
                insert-AreSettled w id t files later (named.1, unique),
              )
      ]

  remove-IsSettled :
      (w : World Config) (id : String) (files : Dict String (Schedule Config))
      → w.removes ≡ true
      → IsClean w id
      → AreNamed files
      → IsSettled w id (remove w id files)
  unfolding remove
  remove-IsSettled w id files works (clean, named) (names, unique) =
      let gone : remove w id files ≡ delete id files = rw (clean, remove, named, works) refl in
      rw gone (list-All _ (delete id files) (delete-AreSettled w id files names))

  pub settle_every-IsSettled :
      (w : World Config) (s : Schedule Config) (step : ℤ) (files : Dict String (Schedule Config))
      → w.removes ≡ true
      → IsClean w s.id
      → AreNamed files
      → IsSettled w s.id (settle_every w s step files)
  unfolding settle_every remove
  settle_every-IsSettled w s (pos (suc n)) files works clean named =
      let next = advance (w.now + 1) w.now (suc n) (s.run_at + suc n) in
      let later = (advance-IsNext w.now (suc n) s.run_at (omega arith)).0 in
      elim (Bool-cases w.writes) [
        | inl e ↦ rw e (
            list-All _ (insert s.id (record s { run_at = next }) files)
              (insert-AreSettled w s.id (record s { run_at = next }) files later named))
        | inr e ↦ rw e (remove-IsSettled w s.id files works clean named)
      ]
  settle_every-IsSettled w s (pos zero) files works clean named =
      remove-IsSettled w s.id files works clean named
  settle_every-IsSettled w s (negsuc n) files works clean named =
      remove-IsSettled w s.id files works clean named
