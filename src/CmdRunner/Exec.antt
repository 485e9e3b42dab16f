-- ===== src/CmdRunner/Exec.antt =====
-- http-cmd-runner/main.go: `handleExec` and `buildCmd`.
use utilities.Base.{
  ℕ, String, Bool, true, false, ◌||◌, Option, none, some, List, [], ◌∷◌, ℤ, pos, negsuc, ltb_ℤ,
  ◌==◌, string_keyed, if◌then◌else◌,
}
use utilities.CmdRunner.Config.{Config, allows}
use utilities.CmdRunner.Capped.{CappedBuffer, write_all}

pub record ExecRequest : Type 0 where
  pub command : String
  pub args : List String
  pub stdin : String
  pub timeout_sec : ℤ

pub record Command : Type 0 where
  pub path : String
  pub args : List String
  pub dir : String

pub data ExitState : Type 0 where
  succeeded : ExitState
  exit_error : ℤ → ExitState
  not_run : (message : List ℕ) → ExitState

-- What `cmd.Run` and its deadline give: the writes to both outputs, in order, and the end.
pub record ProcessRun : Type 0 where
  pub stdout : List (List ℕ)
  pub stderr : List (List ℕ)
  pub state : ExitState
  pub duration_ms : ℕ
  pub timed_out : Bool

pub record ExecResponse : Type 0 where
  pub stdout : List ℕ
  pub stderr : List ℕ
  pub exit_code : ℤ
  pub duration_ms : ℕ
  pub timed_out : Bool
  pub truncated : Bool

pub data Reply : Type 0 where
  error : (status : ℕ) → Reply
  ok : ExecResponse → Reply

-- A request as the handler reads it: `body` is the decoded JSON.
pub record HttpRequest : Type 0 where
  pub method : String
  pub body : Option ExecRequest

unfoldable pub timeout_for : Config → ExecRequest → ℤ
timeout_for c req =
    let timeout =
      if ltb_ℤ (pos 0) req.timeout_sec then req.timeout_sec else c.default_timeout_sec in
    if ltb_ℤ c.max_timeout_sec timeout then c.max_timeout_sec else timeout

-- `none` is the refusal of a command that is not in the allowlist.
unfoldable pub build_cmd : Config → ExecRequest → Option Command
unfolding allows
build_cmd c req =
    if c.allow_arbitrary
    then some (record { path = "/bin/sh"; args = "-c" ∷ req.command ∷ []; dir = c.working_dir })
    else if allows c.allowlist req.command
    then some (record { path = req.command; args = req.args; dir = c.working_dir })
    else none

abbrev is_empty : List ℕ → Bool
is_empty [] = true
is_empty (x ∷ xs) = false

unfoldable pub respond : Config → ProcessRun → ExecResponse
unfolding write_all
respond c run =
    let empty : CappedBuffer = record { buf = []; limit = c.max_output_bytes; truncated = false } in
    let stdout = write_all empty run.stdout in
    let stderr = write_all empty run.stderr in
    record {
      stdout = stdout.buf;
      stderr = elim run.state [
        | not_run message ↦ if is_empty stderr.buf then message else stderr.buf
        | _ ↦ stderr.buf
      ];
      exit_code = elim run.state [
        | succeeded ↦ pos 0
        | exit_error code ↦ code
        | not_run _ ↦ negsuc 0
      ];
      duration_ms = run.duration_ms;
      timed_out = run.timed_out;
      truncated = stdout.truncated || stderr.truncated;
    }

-- The command that was run with its standard input and its timeout, if any, and the reply. `blank` is
-- whether `strings.TrimSpace` leaves nothing; `run` is the process, which is outside.
unfoldable pub handle_exec :
    (String → Bool)
    → (Command → String → ℤ → ProcessRun)
    → Config
    → HttpRequest
    → Option (Command × (String × ℤ)) × Reply
unfolding build_cmd timeout_for respond
handle_exec blank run c r =
    if r.method == "POST"
    then elim r.body [
      | none ↦ (none, error 400)
      | some req ↦ if blank req.command then (none, error 400) else elim (build_cmd c req) [
        | none ↦ (none, error 403)
        | some cmd ↦
            let timeout = timeout_for c req in
            (some (cmd, (req.stdin, timeout)), ok (respond c (run cmd req.stdin timeout)))
      ]
    ]
    else (none, error 405)
