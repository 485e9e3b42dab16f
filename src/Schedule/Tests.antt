-- ===== src/Schedule/Tests.antt =====
-- Sweeps at concrete files.
use utilities.Base.{
  ℕ, ◌+◌, ◌*◌, ◌≡◌, refl, String, true, false, Option, some, [], ◌∷◌, Dict, string_keyed, arith,
  insert, delete, lookup, pos, negsuc,
}
use utilities.Schedule.Entry.{sanitize_id, Schedule, every, list, sort_by_time, insert_by_time}
use utilities.Schedule.Sweep.{World, advance, schedule_sweep, remove}
use utilities.Schedule.Advance.{IsNext, advance-IsNext}
use utilities.Schedule.Fire.{IsFirstDue, schedule_sweep-Fires}
use utilities.Schedule.Settled.{IsSettled, AreNamed}

abbrev hourly : String → Option ℕ
hourly v = some 3_600_000_000_000

abbrev world : World ℕ
world = record {
  now = 50;
  started_at = 10;
  active = false;
  starts = λ c. true;
  writes = true;
  removes = true;
  parse_duration = λ v. some 7;
  trim_space = λ v. v;
}

abbrev entry : String → ℕ → String → Schedule ℕ
entry id run_at every_str = record { id = id; run_at = run_at; config = 0; every_str = every_str }

abbrev files : Dict String (Schedule ℕ)
files =
    ("late", entry "late" 90 "")
    ∷ ("due", entry "due" 20 "7ns")
    ∷ ("missed", entry "missed" 5 "")
    ∷ []

test_days : every hourly "1d" ≡ pos 86_400_000_000_000
unfolding every
test_days = refl

-- A day count whose product passes the int64.
test_days_overflow :
    every (λ v. some (106_752 * 3_600_000_000_000)) "106752d" ≡ negsuc 9_223_371_273_709_551_615
unfolding every
test_days_overflow = refl

test_sweep : schedule_sweep world files ≡ (
  ("late", entry "late" 90 "") ∷ ("due", entry "due" 55 "7ns") ∷ [],
  some (entry "due" 20 "7ns"),
)
unfolding schedule_sweep sort_by_time insert_by_time insert delete advance remove
test_sweep = refl

files-AreNamed : AreNamed files
unfolding lookup
files-AreNamed = ((refl, (refl, (refl, tt))), (refl, (refl, (refl, tt))))

-- A file whose name is not its schedule's id: the sweep fires it and leaves it as it was.
test_sweep_copy :
    schedule_sweep world (("copy", entry "due" 20 "") ∷ [])
    ≡ (("copy", entry "due" 20 "") ∷ [], some (entry "due" 20 ""))
unfolding schedule_sweep sort_by_time insert_by_time delete remove
test_sweep_copy = refl

schedule_sweep-Fires_example :
    IsFirstDue world (entry "due" 20 "7ns") (list files)
    × IsSettled world "due" (schedule_sweep world files).0
unfolding schedule_sweep sort_by_time insert_by_time sanitize_id
schedule_sweep-Fires_example =
    schedule_sweep-Fires world files (entry "due" 20 "7ns") refl (refl, refl) files-AreNamed refl

advance-IsNext_example : IsNext 50 7 (20 + 7) (advance (50 + 1) 50 7 (20 + 7))
advance-IsNext_example = advance-IsNext 50 7 20 (omega arith)

test_sanitize_id : sanitize_id (λ v. v) "../run" ≡ ""
unfolding sanitize_id
test_sanitize_id = refl
