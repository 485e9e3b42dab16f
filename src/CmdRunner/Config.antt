-- ===== src/CmdRunner/Config.antt =====
-- http-cmd-runner/config.go: the configuration and its check.
use utilities.Base.{
  String, Bool, true, false, not, ◌&&◌, Option, none, some, List, [], ◌∷◌, ℤ, pos, leb_ℤ, ltb_ℤ,
  ◌==◌, string_keyed, if◌then◌else◌,
}

pub record Config : Type 0 where
  pub listen : String
  pub allow_arbitrary : Bool
  pub allowlist : List String
  pub default_timeout_sec : ℤ
  pub max_timeout_sec : ℤ
  pub working_dir : String
  pub max_output_bytes : ℤ
  pub tls_cert_file : String
  pub tls_key_file : String
  pub log_file : String

abbrev pub default_config : Config
default_config = record {
  listen = "127.0.0.1:8080";
  allow_arbitrary = true;
  allowlist = [];
  default_timeout_sec = pos 30;
  max_timeout_sec = pos 300;
  working_dir = "";
  max_output_bytes = pos 1_048_576;
  tls_cert_file = "";
  tls_key_file = "";
  log_file = "";
}

pub data ConfigError : Type 0 where
  read_error : ConfigError
  parse_error : ConfigError
  nothing_could_run : ConfigError
  bad_default_timeout : ConfigError
  bad_max_timeout : ConfigError
  half_tls : ConfigError

abbrev pub is_empty : List String → Bool
is_empty [] = true
is_empty (x ∷ xs) = false

-- `none` is a valid configuration.
unfoldable pub validate : Config → Option ConfigError
validate c =
    if not c.allow_arbitrary && is_empty c.allowlist
    then some nothing_could_run
    else if leb_ℤ c.default_timeout_sec (pos 0)
    then some bad_default_timeout
    else if ltb_ℤ c.max_timeout_sec c.default_timeout_sec
    then some bad_max_timeout
    else if (if c.tls_cert_file == "" then not (c.tls_key_file == "") else c.tls_key_file == "")
    then some half_tls
    else none

-- The file as `LoadConfig` finds it: its JSON over a configuration, which is `json.Unmarshal`.
pub data ConfigFile : Type 0 where
  no_path : ConfigFile
  unreadable : ConfigFile
  contents : (Config → Option Config) → ConfigFile

unfoldable pub load_config : ConfigFile → String → Config × Option ConfigError
unfolding validate
load_config no_path env =
    let c : Config = if env == "" then default_config else record default_config { listen = env } in
    (c, validate c)
load_config unreadable env = (default_config, some read_error)
load_config (contents parse) env = elim (parse default_config) [
  | none ↦ (default_config, some parse_error)
  | some c ↦
      let c' : Config = if env == "" then c else record c { listen = env } in (c', validate c')
]

unfoldable pub allows : List String → String → Bool
allows [] prog = false
allows (a ∷ others) prog = let rest = allows others prog in if a == prog then true else rest
