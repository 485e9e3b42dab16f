-- ===== src/Schedule/Sweep.antt =====
-- schedule.go: `scheduleSweep`, and the files it changes.
use utilities.Base.{
  ◌==◌, ℕ, zero, suc, ◌+◌, String, Bool, Option, none, some, List, [], ◌∷◌, Dict, insert, delete,
  string_keyed, ltb, if◌then◌else◌, ℤ, pos,
}
use utilities.Schedule.Entry.{Schedule, every, list, sanitize_id}

-- What the sweep finds outside: the clock, the start of the scheduler, whether a run is active,
-- whether `startRun` succeeds on a request, and whether files can be written and removed.
pub record World (Config : Type 0) : Type 0 where
  pub now : ℕ
  pub started_at : ℕ
  pub active : Bool
  pub starts : Config → Bool
  pub writes : Bool
  pub removes : Bool
  pub parse_duration : String → Option ℕ
  pub trim_space : String → String

-- `for !next.After(now) { next = next.Add(every) }`, on fuel.
unfoldable pub advance : ℕ → ℕ → ℕ → ℕ → ℕ
advance zero now step next = next
advance (suc fuel) now step next =
    let rest = advance fuel now step (next + step) in if ltb now next then next else rest

module _ {Config : Type 0} where
  -- `delete`, whose error the sweep ignores.
  unfoldable pub remove :
      World Config → String → Dict String (Schedule Config) → Dict String (Schedule Config)
  unfolding sanitize_id
  remove w id files =
      let clean = sanitize_id w.trim_space id in
      if clean == "" then files else if w.removes then delete clean files else files

  -- What becomes of a schedule that has fired, by its repeat interval.
  unfoldable pub settle_every :
      World Config
      → Schedule Config
      → ℤ
      → Dict String (Schedule Config)
      → Dict String (Schedule Config)
  settle_every w s (pos (suc n)) files =
      let next = advance (w.now + 1) w.now (suc n) (s.run_at + suc n) in
      if w.writes then insert s.id (record s { run_at = next }) files else remove w s.id files
  settle_every w s step files = remove w s.id files

  unfoldable pub settle_fired :
      World Config → Schedule Config → Dict String (Schedule Config) → Dict String (Schedule Config)
  unfolding every settle_every
  settle_fired w s files = settle_every w s (every w.parse_duration s.every_str) files

  -- The loop of the sweep: the files, and the schedule whose run it started.
  unfoldable pub sweep_list :
      World Config
      → List (Schedule Config)
      → Dict String (Schedule Config)
      → Dict String (Schedule Config) × Option (Schedule Config)
  unfolding settle_fired
  sweep_list w [] files = (files, none)
  sweep_list w (s ∷ ss) files =
      let dropped = sweep_list w ss (remove w s.id files) in
      let rest = sweep_list w ss files in
      if ltb s.run_at w.started_at
      then dropped
      else if ltb w.now s.run_at
      then rest
      else if w.active
      then (files, none)
      else if w.starts s.config
      then (settle_fired w s files, some s)
      else (remove w s.id files, none)

  unfoldable pub schedule_sweep :
      World Config
      → Dict String (Schedule Config)
      → Dict String (Schedule Config) × Option (Schedule Config)
  unfolding list sweep_list
  schedule_sweep w files = sweep_list w (list files) files
