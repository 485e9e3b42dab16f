-- ===== src/CmdRunner/Tests.antt =====
-- Requests at a concrete configuration.
use utilities.Base.{
  ◌≡◌, ◌<◌, refl, String, true, false, none, some, [], ◌∷◌, ℤ, pos, ◌≤ℤ◌, ltb, length, take, ◌==◌,
  string_keyed, arith,
}
use utilities.CmdRunner.Config.{Config, default_config, validate, allows, load_config, no_path}
use utilities.CmdRunner.Capped.{write_all}
use utilities.CmdRunner.Exec.{
  ExecRequest, Command, ProcessRun, HttpRequest, error, succeeded, handle_exec,
}
use utilities.CmdRunner.Output.{concat, write_all-take}
use utilities.CmdRunner.Allowed.{handle_exec-Allowed}

abbrev config : Config
config = record default_config { allow_arbitrary = false; allowlist = "ls" ∷ "df" ∷ [] }

abbrev request : String → HttpRequest
request command = record {
  method = "POST";
  body = some (record { command = command; args = "-h" ∷ []; stdin = ""; timeout_sec = pos 900 });
}

abbrev quiet : Command → String → ℤ → ProcessRun
quiet cmd stdin timeout = record {
  stdout = [];
  stderr = [];
  state = succeeded;
  duration_ms = 1;
  timed_out = false;
}

-- The default configuration runs any shell line.
test_default : load_config no_path "" ≡ (default_config, none)
unfolding load_config
test_default = refl

test_default_allows : default_config.allow_arbitrary ≡ true
test_default_allows = refl

test_forbidden : handle_exec (λ s. s == "") quiet config (request "rm") ≡ (none, error 403)
unfolding handle_exec allows
test_forbidden = refl

test_run :
    (handle_exec (λ s. s == "") quiet config (request "df")).0
    ≡ some (record { path = "df"; args = "-h" ∷ []; dir = "" }, ("", pos 300))
unfolding handle_exec allows
test_run = refl

handle_exec-Allowed_example :
    ((request "df").method ≡ "POST")
    × (req : ExecRequest) × ((request "df").body ≡ some req)
    × ((req.command == "") ≡ false)
    × ("df" ≡ req.command)
    × (("-h" ∷ []) ≡ req.args)
    × (allows config.allowlist "df" ≡ true)
    × (0 < 300)
    × (pos 300 ≤ℤ config.max_timeout_sec)
unfolding validate
handle_exec-Allowed_example =
    handle_exec-Allowed (λ s. s == "") quiet config (request "df")
      (record { path = "df"; args = "-h" ∷ []; dir = "" }) "" (pos 300) refl refl test_run

write_all-take_example :
    let out =
      write_all
        (record { buf = []; limit = pos 3; truncated = false })
        ((1 ∷ 2 ∷ []) ∷ (3 ∷ 4 ∷ []) ∷ []) in
    (out.buf ≡ take 3 (concat ((1 ∷ 2 ∷ []) ∷ (3 ∷ 4 ∷ []) ∷ [])))
    × (out.truncated ≡ ltb 3 (length (concat ((1 ∷ 2 ∷ []) ∷ (3 ∷ 4 ∷ []) ∷ []))))
write_all-take_example =
    write_all-take (pos 3) ((1 ∷ 2 ∷ []) ∷ (3 ∷ 4 ∷ []) ∷ []) (omega arith)
      (omega arith, (omega arith, tt))
