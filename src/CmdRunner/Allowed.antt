-- ===== src/CmdRunner/Allowed.antt =====
-- http-cmd-runner: what the server runs, and for how long.

use utilities.Base.{
  ◌<◌, ◌≡◌, subst, inl, inr, String, Bool, true, false, none, some, ℤ, pos_part, neg_part, ◌≤ℤ◌,
  ℤ-cases, ◌==◌, string_keyed, Bool-cases, Option-cases, arith,
}
use utilities.CmdRunner.Config.{Config, validate, allows}
use utilities.CmdRunner.Exec.{
  ExecRequest, Command, ProcessRun, HttpRequest, timeout_for, build_cmd, handle_exec,
}

validate-timeouts :
    (c : Config)
    → validate c ≡ none
    → (0 < pos_part c.default_timeout_sec)
      × (neg_part c.default_timeout_sec ≡ 0)
      × (c.default_timeout_sec ≤ℤ c.max_timeout_sec)
unfolding validate
validate-timeouts c valid = ground (arith, ℤ-cases c.default_timeout_sec, ℤ-cases c.max_timeout_sec)

timeout_for-bounds :
    (c : Config) (req : ExecRequest)
    → validate c ≡ none
    → (0 < pos_part (timeout_for c req)) × (timeout_for c req ≤ℤ c.max_timeout_sec)
unfolding timeout_for
timeout_for-bounds c req valid =
    ground (arith, validate-timeouts c valid, ℤ-cases req.timeout_sec, ℤ-cases c.max_timeout_sec)

build_cmd-Allowed :
    (c : Config) (req : ExecRequest) (cmd : Command)
    → c.allow_arbitrary ≡ false
    → build_cmd c req ≡ some cmd
    → (allows c.allowlist cmd.path ≡ true) × (cmd.path ≡ req.command) × (cmd.args ≡ req.args)
unfolding build_cmd
build_cmd-Allowed c req cmd strict built = ground arith

-- Whatever the request, with a valid configuration that does not allow arbitrary commands: if a
-- command is run, then the request was a POST with a command that is not blank, the command is the
-- one it names, with its arguments and no shell, it is on the allowlist, and its timeout is positive
-- and at most the greatest one.
pub handle_exec-Allowed :
    (blank : String → Bool) (run : Command → String → ℤ → ProcessRun) (c : Config) (r : HttpRequest)
    (cmd : Command) (stdin : String) (timeout : ℤ)
    → validate c ≡ none
    → c.allow_arbitrary ≡ false
    → (handle_exec blank run c r).0 ≡ some (cmd, (stdin, timeout))
    → (r.method ≡ "POST")
      × (req : ExecRequest) × (r.body ≡ some req)
      × (blank req.command ≡ false)
      × (cmd.path ≡ req.command)
      × (cmd.args ≡ req.args)
      × (allows c.allowlist cmd.path ≡ true)
      × (0 < pos_part timeout)
      × (timeout ≤ℤ c.max_timeout_sec)
unfolding handle_exec
handle_exec-Allowed blank run c r cmd stdin timeout valid strict ran =
    elim (Bool-cases (r.method == "POST")) [
      | inr e ↦ cc
      | inl post ↦ elim (Option-cases r.body) [
        | inl e ↦ cc
        | inr (req, body) ↦ elim (Bool-cases (blank req.command)) [
          | inl e ↦ cc
          | inr named ↦ elim (Option-cases (build_cmd c req)) [
            | inl e ↦ cc
            | inr (built, e) ↦
                let whole : ◌≡◌ {A = Command × (String × ℤ)} (built, (req.stdin, timeout_for c req))
                    (cmd, (stdin, timeout)) =
                  cc in
                let (listed, path, args) = build_cmd-Allowed c req built strict e in
                let (same_path, same_args, on_list, low, high) =
                  subst
                    (λ t.
                      (t.0.path ≡ req.command)
                      × (t.0.args ≡ req.args)
                      × (allows c.allowlist t.0.path ≡ true)
                      × (0 < pos_part t.1.1)
                      × (t.1.1 ≤ℤ c.max_timeout_sec))
                    whole
                    (
                      path,
                      args,
                      listed,
                      (timeout_for-bounds c req valid).0,
                      (timeout_for-bounds c req valid).1,
                    ) in
                (
                  (string_keyed.same_iff r.method "POST").0 post,
                  req,
                  body,
                  named,
                  same_path,
                  same_args,
                  on_list,
                  low,
                  high,
                )
          ]
        ]
      ]
    ]
