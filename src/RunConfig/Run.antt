-- ===== src/RunConfig/Run.antt =====
-- config.go: `RunConfig.Validate`, which checks the configuration and fills in defaults. The record
-- has the fields that it reads; durations are nanoseconds, and of the hours only the sign is read.
use utilities.Base.{
  ◌+◌, String, Bool, true, false, not, ◌&&◌, ◌||◌, Option, none, some, List, [], ◌∷◌, ℤ, pos, ltb_ℤ,
  leb_ℤ, pos_part, neg_part, eqb, ◌==◌, string_keyed, if◌then◌else◌,
}
use utilities.Runner.Rotation.{UserCreds}
use utilities.RunConfig.Source.{
  ConfigError, SourceConfig, SinkConfig, validate_source, validate_sink, host_required, bad_port,
  upload_folder_required, bad_duration, no_load, no_users, bad_files_per_minute, bad_min_size,
  bad_content_type, bad_unit, bad_interval,
}

pub record NormalLoad : Type 0 where
  pub files_per_minute : ℤ
  pub min_size_mb : ℤ
  pub max_size_mb : ℤ
  pub content_type : String
  pub source : Option SourceConfig

pub record LargeFileLoad : Type 0 where
  pub min_size : ℤ
  pub max_size : ℤ
  pub unit : String
  pub interval_minutes : ℤ
  pub source : Option SourceConfig

pub record DownloadLoad : Type 0 where
  pub folder : String
  pub parallel_streams : ℤ
  pub sink : Option SinkConfig

pub record RunConfig : Type 0 where
  pub host : String
  pub port : ℤ
  pub upload_folder : String
  pub parallel_streams : ℤ
  pub duration_hours : ℤ
  pub normal : Option NormalLoad
  pub large_file : Option LargeFileLoad
  pub download : Option DownloadLoad
  pub normal_users : List UserCreds
  pub large_file_users : List UserCreds
  pub download_users : List UserCreds
  pub poll_interval : ℤ
  pub track_id_timeout : ℤ
  pub max_consecutive_failures : ℤ

abbrev pub is_none {ℓ} : {A : Type ℓ} → Option A → Bool
is_none none = true
is_none (some a) = false

abbrev pub no_one : List UserCreds → Bool
no_one [] = true
no_one (u ∷ us) = false

abbrev pub is_zero : ℤ → Bool
is_zero a = eqb (pos_part a + neg_part a) 0

abbrev pub max_ℤ : ℤ → ℤ → ℤ
max_ℤ a b = if ltb_ℤ a b then b else a

abbrev pub source_error : String → Option SourceConfig → Option ConfigError
source_error label none = none
source_error label (some s) = validate_source label s

unfoldable pub check_normal : List UserCreds → NormalLoad → NormalLoad × Option ConfigError
unfolding validate_source
check_normal users n =
    let sized : NormalLoad = record n { max_size_mb = max_ℤ n.max_size_mb n.min_size_mb } in
    let filled : NormalLoad =
      if n.content_type == "" then record sized { content_type = "binary" } else sized in
    if no_one users
    then (n, some (no_users "normal"))
    else if leb_ℤ n.files_per_minute (pos 0)
    then (n, some bad_files_per_minute)
    else if ltb_ℤ n.min_size_mb (pos 1)
    then (n, some (bad_min_size "normal"))
    else if n.content_type == ""
        || (n.content_type == "binary" || (n.content_type == "ascii" || n.content_type == "random"))
    then (filled, source_error "normal" n.source)
    else (sized, some bad_content_type)

unfoldable pub check_large_file :
    List UserCreds → LargeFileLoad → LargeFileLoad × Option ConfigError
unfolding validate_source
check_large_file users l =
    let sized : LargeFileLoad = record l { max_size = max_ℤ l.max_size l.min_size } in
    if no_one users
    then (l, some (no_users "large-file"))
    else if not (l.unit == "MB") && not (l.unit == "GB")
    then (l, some bad_unit)
    else if ltb_ℤ l.min_size (pos 1)
    then (l, some (bad_min_size "large-file"))
    else if leb_ℤ l.interval_minutes (pos 0)
    then (sized, some bad_interval)
    else (sized, source_error "large-file" l.source)

unfoldable pub check_download :
    String → List UserCreds → DownloadLoad → DownloadLoad × Option ConfigError
unfolding validate_sink
check_download upload_folder users d =
    let streams : DownloadLoad = record d { parallel_streams = max_ℤ d.parallel_streams (pos 1) } in
    let filled : DownloadLoad =
      if d.folder == "" then record streams { folder = upload_folder } else streams in
    if no_one users
    then (d, some (no_users "download"))
    else (filled, elim d.sink [ none ↦ none | some s ↦ validate_sink s ])

abbrev pub check_all {ℓ} :
    {A : Type ℓ} → (A → A × Option ConfigError) → Option A → Option A × Option ConfigError
check_all check none = (none, none)
check_all check (some a) = (some (check a).0, (check a).1)

-- The last lines of `Validate`.
unfoldable pub fill_defaults : RunConfig → RunConfig
fill_defaults c = record c {
  poll_interval = if is_zero c.poll_interval then pos 3_000_000_000 else c.poll_interval;
  max_consecutive_failures = max_ℤ c.max_consecutive_failures (pos 0);
  track_id_timeout = if is_zero c.track_id_timeout then pos 300_000_000_000 else c.track_id_timeout;
}

-- The blocks of the three loads, which stop at the first error.
unfoldable pub check_loads : RunConfig → RunConfig × Option ConfigError
unfolding check_normal check_large_file check_download fill_defaults
check_loads c =
    let (normal, e) = check_all (check_normal c.normal_users) c.normal in
    let (large_file, f) = check_all (check_large_file c.large_file_users) c.large_file in
    let (download, g) = check_all (check_download c.upload_folder c.download_users) c.download in
    let c1 : RunConfig = record c { normal = normal } in
    let c2 : RunConfig = record c1 { large_file = large_file } in
    let c3 : RunConfig = record c2 { download = download } in
    elim e [
      | some err ↦ (c1, some err)
      | none ↦ elim f [
        | some err ↦ (c2, some err)
        | none ↦ elim g [ some err ↦ (c3, some err) | none ↦ (fill_defaults c3, none) ]
      ]
    ]

unfoldable pub validate : RunConfig → RunConfig × Option ConfigError
unfolding check_loads
validate c =
    let streams : RunConfig = record c { parallel_streams = max_ℤ c.parallel_streams (pos 1) } in
    if c.host == ""
    then (c, some host_required)
    else if leb_ℤ c.port (pos 0) || ltb_ℤ (pos 65535) c.port
    then (c, some bad_port)
    else if c.upload_folder == "" && (not (is_none c.normal) || not (is_none c.large_file))
    then (c, some upload_folder_required)
    else if leb_ℤ c.duration_hours (pos 0)
    then (streams, some bad_duration)
    else if is_none c.normal && (is_none c.large_file && is_none c.download)
    then (streams, some no_load)
    else check_loads streams
