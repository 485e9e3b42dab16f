-- ===== src/Schedule/Entry.antt =====
-- schedule.go: a schedule, its repeat interval, and the files of the store. Instants and durations
-- are nanoseconds.
use Prim.Native.String.{[] as empty_text, ◌∷◌ as ◌then◌}
use Prim.Native.Char.{code}
use utilities.Base.{
  ℕ, ◌-◌, ◌*◌, ◌%◌, ◌^◌, String, Option, none, some, List, [], ◌∷◌, Dict, string_keyed, ltb, leb,
  if◌then◌else◌, ℤ, pos, negsuc, map, eqb, false, true, ◌||◌, ◌==◌, Bool, str_append,
}

-- `Config` stands for the decoded request that `startRun` takes.
pub record Schedule (Config : Type 0) : Type 0 where
  pub id : String
  pub run_at : ℕ
  pub config : Config
  pub every_str : String

-- The text before a trailing "d".
abbrev pub trim_days : String → Option String
trim_days empty_text = none
trim_days (c then s) = elim s [
  | empty_text ↦ if eqb (code c) 100 then some "" else none
  | _ ↦ elim (trim_days s) [ none ↦ none | some t ↦ some (c then t) ]
]

-- A product that wraps round in an int64.
abbrev pub i64 : ℕ → ℤ
i64 n = let w = n % 2 ^ 64 in if ltb w (2 ^ 63) then pos w else negsuc (2 ^ 64 - 1 - w)

-- `parse_duration` is `time.ParseDuration` where it gives a positive duration.
unfoldable pub every : (String → Option ℕ) → String → ℤ
every parse_duration empty_text = pos 0
every parse_duration v = elim (trim_days v) [
  | some t ↦ elim (parse_duration (str_append t "h")) [ none ↦ pos 0 | some d ↦ i64 (d * 24) ]
  | none ↦ elim (parse_duration v) [ none ↦ pos 0 | some d ↦ pos d ]
]

-- A slash, a backslash or a colon.
abbrev pub has_separator : String → Bool
has_separator empty_text = false
has_separator (c then s) =
    let rest = has_separator s in
    if eqb (code c) 47 || (eqb (code c) 92 || eqb (code c) 58) then true else rest

abbrev pub has_dot : String → Bool
has_dot empty_text = false
has_dot (c then s) = eqb (code c) 46

-- `trim_space` is `strings.TrimSpace`; the empty text is a refused id.
unfoldable pub sanitize_id : (String → String) → String → String
sanitize_id trim_space id =
    let trimmed = trim_space id in
    if trimmed == "" then "" else if has_separator trimmed || has_dot trimmed then "" else trimmed

module _ {Config : Type 0} where
  -- `sort.Slice` by `run_at`; schedules of one instant keep the order of the directory.
  unfoldable pub insert_by_time : Schedule Config → List (Schedule Config) → List (Schedule Config)
  insert_by_time s [] = s ∷ []
  insert_by_time s (t ∷ ts) = if leb s.run_at t.run_at then s ∷ t ∷ ts else t ∷ insert_by_time s ts

  unfoldable pub sort_by_time : List (Schedule Config) → List (Schedule Config)
  sort_by_time [] = []
  sort_by_time (s ∷ ss) = insert_by_time s (sort_by_time ss)

  unfoldable pub list : Dict String (Schedule Config) → List (Schedule Config)
  list files = sort_by_time (map (λ f. f.1) files)
