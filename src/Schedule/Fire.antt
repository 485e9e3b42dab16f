-- ===== src/Schedule/Fire.antt =====
-- schedule.go: which schedule a sweep fires.
use utilities.Base.{
  sym, ℕ, ◌≤◌, ◌<◌, ◌≡◌, refl, subst, ◌⊎◌, inl, inr, String, true, false, Option, some, List, [],
  ◌∷◌, map, All, Dict, string_keyed, ltb, arith, Bool-cases,
}
use utilities.Schedule.Entry.{Schedule, every, list}
use utilities.Schedule.Sweep.{World, remove, settle_fired, sweep_list, schedule_sweep}
use utilities.Schedule.Listed.{IsSorted, sort_by_time-IsSorted}
use utilities.Schedule.Settled.{
  IsSettled, AreNamed, IsClean, remove-AreNamed, settle_every-IsSettled,
}

module _ {Config : Type 0} where
  -- The fired schedule was due, was not missed, and was the first of those.
  abbrev pub IsFirstDue : World Config → Schedule Config → List (Schedule Config) → Type 0
  IsFirstDue w s ss =
      (w.active ≡ false)
      × (w.started_at ≤ s.run_at)
      × (s.run_at ≤ w.now)
      × All (λ t. (t.run_at < w.started_at) ⊎ (s.run_at ≤ t.run_at)) ss

  abbrev Fires :
      World Config
      → List (Schedule Config)
      → Schedule Config
      → Dict String (Schedule Config) × Option (Schedule Config)
      → Type 0
  Fires w ss s r = r.1 ≡ some s → IsFirstDue w s ss × IsSettled w s.id r.0

  -- A schedule in front that the sweep passes over.
  Fires-cons :
      (w : World Config) (t : Schedule Config) (ts : List (Schedule Config)) (s : Schedule Config)
      (r : Dict String (Schedule Config) × Option (Schedule Config))
      → (t.run_at < w.started_at) ⊎ (w.now < t.run_at)
      → Fires w ts s r
      → Fires w (t ∷ ts) s r
  Fires-cons w t ts s r skipped rest fired =
      let ((idle, kept, due, all), settled) = rest fired in
      (
        (
          idle,
          kept,
          due,
          (elim skipped [ inl missed ↦ inl missed | inr early ↦ inr (omega arith) ], all),
        ),
        settled,
      )

  All-first :
      (w : World Config) (a : ℕ) (ss : List (Schedule Config))
      → All (λ t. a ≤ t.run_at) ss
      → All (λ t. (t.run_at < w.started_at) ⊎ (a ≤ t.run_at)) ss
  All-first w a [] all = tt
  All-first w a (s ∷ ss) all = (inr all.0, All-first w a ss all.1)

  Fires-head :
      (w : World Config) (t : Schedule Config) (ts : List (Schedule Config)) (s : Schedule Config)
      (files : Dict String (Schedule Config))
      → w.removes ≡ true
      → IsClean w s.id
      → w.active ≡ false
      → w.started_at ≤ t.run_at
      → t.run_at ≤ w.now
      → All (λ u. t.run_at ≤ u.run_at) ts
      → AreNamed files
      → Fires w (t ∷ ts) s (settle_fired w t files, some t)
  unfolding settle_fired
  Fires-head w t ts s files works clean idle kept due sorted named fired =
      let same : t ≡ s = cc in
      subst (λ u. IsFirstDue w u (t ∷ ts) × IsSettled w u.id (settle_fired w t files)) same
        (
          (idle, kept, due, (inr (omega arith), All-first w t.run_at ts sorted)),
          settle_every-IsSettled w t (every w.parse_duration t.every_str) files works
              (subst (λ u. IsClean w u.id) (sym same) clean) named,
        )

  sweep_list-fired :
      (w : World Config) (t : Schedule Config) (ts : List (Schedule Config))
      (files : Dict String (Schedule Config))
      → ltb t.run_at w.started_at ≡ false
      → ltb w.now t.run_at ≡ false
      → w.active ≡ false
      → w.starts t.config ≡ true
      → sweep_list w (t ∷ ts) files ≡ (settle_fired w t files, some t)
  unfolding sweep_list
  sweep_list-fired w t ts files kept due idle ok = simp (kept, due, idle, ok, sweep_list) refl

  sweep_list-Fires :
      (w : World Config) (ss : List (Schedule Config)) (files : Dict String (Schedule Config))
      (s : Schedule Config)
      → w.removes ≡ true
      → IsClean w s.id
      → IsSorted ss
      → AreNamed files
      → Fires w ss s (sweep_list w ss files)
  unfolding sweep_list
  sweep_list-Fires w [] files s works clean sorted named = λ fired. cc
  sweep_list-Fires w (t ∷ ts) files s works clean sorted named =
      elim (Bool-cases (ltb t.run_at w.started_at)) [
        | inl missed ↦
            rw (missed, sweep_list)
              (Fires-cons w t ts s _ (inl (ground arith)) (
                sweep_list-Fires w ts (remove w t.id files) s works clean sorted.1
                  (remove-AreNamed w t.id files named)))
        | inr kept ↦ elim (Bool-cases (ltb w.now t.run_at)) [
          | inl early ↦
              rw (kept, early, sweep_list)
                (Fires-cons w t ts s _ (inr (ground arith))
                  (sweep_list-Fires w ts files s works clean sorted.1 named))
          | inr due ↦ elim (Bool-cases w.active) [
            | inl busy ↦ rw (kept, due, busy, sweep_list) (λ fired. cc)
            | inr idle ↦ elim (Bool-cases (w.starts t.config)) [
              | inl ok ↦ rw (sweep_list-fired w t ts files kept due idle ok) (
                  Fires-head w t ts s files works clean idle (ground arith) (ground arith) sorted.0
                    named)
              | inr failed ↦ rw (kept, due, idle, failed, sweep_list) (λ fired. cc)
            ]
          ]
        ]
      ]

  -- Where files can be removed, each file is named for the id of its schedule, and the id is one
  -- that `delete` takes as it is, a sweep that starts a run starts the first schedule that is due
  -- and was not missed before the scheduler started, with no run active; and of the schedules that
  -- are listed afterwards, none with that id is due.
  pub schedule_sweep-Fires :
      (w : World Config) (files : Dict String (Schedule Config)) (s : Schedule Config)
      → w.removes ≡ true
      → IsClean w s.id
      → AreNamed files
      → (schedule_sweep w files).1 ≡ some s
      → IsFirstDue w s (list files) × IsSettled w s.id (schedule_sweep w files).0
  unfolding schedule_sweep list
  schedule_sweep-Fires w files s works clean named fired =
      sweep_list-Fires w (list files) files s works clean
        (sort_by_time-IsSorted (map (λ f. f.1) files)) named fired
