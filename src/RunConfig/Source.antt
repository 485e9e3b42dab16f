-- ===== src/RunConfig/Source.antt =====
-- config.go: where uploads come from and downloads go to, and how fast a run ramps up.
use utilities.Base.{
  String, Bool, ◌||◌, Option, none, some, List, [], ◌∷◌, ℤ, pos, ltb_ℤ, ◌==◌, string_keyed,
  str_append, if◌then◌else◌,
}

pub data ConfigError : Type 0 where
  host_required : ConfigError
  bad_port : ConfigError
  upload_folder_required : ConfigError
  bad_duration : ConfigError
  no_load : ConfigError
  no_users : (load : String) → ConfigError
  bad_files_per_minute : ConfigError
  bad_min_size : (load : String) → ConfigError
  bad_content_type : ConfigError
  bad_unit : ConfigError
  bad_interval : ConfigError
  no_files : (label : String) → ConfigError
  no_dir : (label : String) → ConfigError
  bad_layout : (label : String) → ConfigError
  bad_source_kind : (label : String) → ConfigError
  bad_mode : (label : String) → ConfigError
  no_root : ConfigError
  bad_sink_kind : ConfigError
  bad_start_fpm : ConfigError
  bad_step_fpm : ConfigError
  bad_step_every : ConfigError
  bad_ceiling_fpm : ConfigError

-- The members of the maps `per_pattern` and `per_user` are in the order in which `range` visits them;
-- a nil member is `skip`.
mutual
  pub data SourceConfig : Type 0 where
    source :
        (kind : String)
        → (files : List String) → (dir : String) → (layout : String) → (mode : String)
        → (per_pattern : SourceMap) → (per_user : SourceMap) → SourceConfig

  pub data SourceMap : Type 0 where
    done : SourceMap
    skip : String → SourceMap → SourceMap
    entry : String → SourceConfig → SourceMap → SourceMap

-- The checks of one level of `SourceConfig.Validate`, before the members of its maps.
unfoldable pub validate_level :
    String
    → (kind : String) → (files : List String) → (dir layout mode : String) → Option ConfigError
validate_level label kind files dir layout mode =
    let mode_check : Option ConfigError =
      if mode == "" || (mode == "round-robin" || (mode == "random" || mode == "sequential"))
      then none
      else some (bad_mode label) in
    if kind == "" || kind == "synthetic"
    then mode_check
    else if kind == "local-files"
    then elim files [ [] ↦ some (no_files label) | _ ∷ _ ↦ mode_check ]
    else if kind == "local-dir"
    then if dir == ""
      then some (no_dir label)
      else if layout == ""
          || (layout == "flat"
              || (layout == "by-user" || (layout == "by-pattern" || layout == "by-user-pattern")))
      then mode_check
      else some (bad_layout label)
    else some (bad_source_kind label)

abbrev pub or_else : Option ConfigError → Option ConfigError → Option ConfigError
or_else (some e) rest = some e
or_else none rest = rest

-- `SourceConfig.Validate`; the loop over a map has the text before a member's name in its label.
unfoldable mutual
  unfolding validate_level

  pub validate_source : String → SourceConfig → Option ConfigError
  validate_source label (source kind files dir layout mode per_pattern per_user) =
      or_else (validate_level label kind files dir layout mode) (
        or_else (validate_map (str_append label ".per_pattern[") per_pattern)
          (validate_map (str_append label ".per_user[") per_user))

  pub validate_map : String → SourceMap → Option ConfigError
  validate_map before done = none
  validate_map before (skip name rest) = validate_map before rest
  validate_map before (entry name s rest) =
      or_else (validate_source (str_append before (str_append name "]")) s)
        (validate_map before rest)

pub record SinkConfig : Type 0 where
  pub kind : String
  pub root : String
  pub template : String
  pub overwrite : Bool

unfoldable pub validate_sink : SinkConfig → Option ConfigError
validate_sink s =
    if s.kind == "" || s.kind == "discard"
    then none
    else if s.kind == "local-disk"
    then if s.root == "" then some no_root else none
    else some bad_sink_kind

pub record RampConfig : Type 0 where
  pub start_fpm : ℤ
  pub step_fpm : ℤ
  pub step_every_sec : ℤ
  pub ceiling_fpm : ℤ

unfoldable pub validate_ramp : RampConfig → Option ConfigError
validate_ramp r =
    if ltb_ℤ r.start_fpm (pos 1)
    then some bad_start_fpm
    else if ltb_ℤ r.step_fpm (pos 0)
    then some bad_step_fpm
    else if ltb_ℤ r.step_every_sec (pos 1)
    then some bad_step_every
    else if ltb_ℤ r.ceiling_fpm (pos 0)
    then some bad_ceiling_fpm
    else none
