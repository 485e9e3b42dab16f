-- ===== src/RunConfig/Tests.antt =====
-- Concrete configurations.
use Prim.Native.String.{[] as empty_text, ◌∷◌ as ◌then◌}
use Prim.Native.Char.{code}
use utilities.Base.{
  String, Option, List, true, if◌then◌else◌, ◌&&◌, eqb, ◌≡◌, refl, false, none, some, [], ◌∷◌, pos,
  ◌≤ℤ◌, ◌==◌, string_keyed,
}
use utilities.Runner.Rotation.{UserCreds}
use utilities.RunConfig.Source.{
  SourceConfig, source, done, entry, no_files, bad_start_fpm, validate_source, validate_ramp,
  no_root, validate_sink,
}
use utilities.RunConfig.Run.{RunConfig, validate}
use utilities.RunConfig.Users.{parse_users, parse_users-IsUser, AreUsers, bad_line, no_pattern}
use utilities.RunConfig.Checked.{AreLoads, validate-IsChecked}

abbrev user : UserCreds
user = record { username = "alice"; password = "pw"; patterns = "in_*" ∷ [] }

abbrev empty_source : SourceConfig
empty_source = source "local-files" [] "" "" "" done done

abbrev nested : SourceConfig
nested = source "" [] "" "" "random" (entry "in_*" empty_source done) done

test_nested : validate_source "normal" nested ≡ some (no_files "normal.per_pattern[in_*]")
unfolding validate_source
test_nested = refl

test_sink :
    validate_sink (record { kind = "local-disk"; root = ""; template = ""; overwrite = false })
    ≡ some no_root
unfolding validate_sink
test_sink = refl

test_ramp :
    validate_ramp
      (record { start_fpm = pos 0; step_fpm = pos 1; step_every_sec = pos 1; ceiling_fpm = pos 0 })
    ≡ some bad_start_fpm
unfolding validate_ramp
test_ramp = refl

abbrev config : RunConfig
config = record {
  host = "sftp";
  port = pos 22;
  upload_folder = "/in";
  parallel_streams = pos 0;
  duration_hours = pos 1;
  normal = some (record {
    files_per_minute = pos 60;
    min_size_mb = pos 4;
    max_size_mb = pos 1;
    content_type = "";
    source = none;
  });
  large_file = none;
  download = some (record { folder = ""; parallel_streams = pos 0; sink = none });
  normal_users = user ∷ [];
  large_file_users = [];
  download_users = user ∷ [];
  poll_interval = pos 0;
  track_id_timeout = pos 0;
  max_consecutive_failures = pos 3;
}

test_defaults : (validate config).0.poll_interval ≡ pos 3_000_000_000
unfolding validate
test_defaults = refl

validate-IsChecked_example :
    let checked = (validate config).0 in
    ((checked.host == "") ≡ false)
    × (pos 1 ≤ℤ checked.port)
    × (checked.port ≤ℤ pos 65535)
    × (pos 1 ≤ℤ checked.duration_hours)
    × (pos 1 ≤ℤ checked.parallel_streams)
    × AreLoads checked
unfolding validate
validate-IsChecked_example = validate-IsChecked config refl

-- `strings.TrimSpace` on the blanks of a test.
abbrev trim_end : String → String
trim_end empty_text = ""
trim_end (c then s) =
    let rest = trim_end s in if (rest == "") && eqb (code c) 32 then "" else c then rest

abbrev trim_start : String → String
trim_start empty_text = ""
trim_start (c then s) = let rest = trim_start s in if eqb (code c) 32 then rest else c then s

abbrev trim_blanks : String → String
trim_blanks s = trim_start (trim_end s)

-- A name with blanks round it, a pattern of blanks and an empty one.
abbrev csv : List (Option (List String))
csv =
    some (" alice " ∷ " pw" ∷ "in_* " ∷ "  " ∷ "" ∷ "out" ∷ [])
    ∷ some ("bob" ∷ "pw" ∷ "b" ∷ [])
    ∷ []

test_no_pattern :
    parse_users trim_blanks true 1 (some ("alice" ∷ "pw" ∷ "  " ∷ []) ∷ []) ≡ bad_line 1 no_pattern
unfolding parse_users
test_no_pattern = refl

abbrev csv_users : List UserCreds
csv_users =
    record { username = "alice"; password = " pw"; patterns = "in_*" ∷ "out" ∷ [] }
    ∷ record { username = "bob"; password = "pw"; patterns = "b" ∷ [] }
    ∷ []

parse_users-IsUser_example : AreUsers trim_blanks true csv csv_users
unfolding parse_users
parse_users-IsUser_example = parse_users-IsUser trim_blanks true csv csv_users refl
