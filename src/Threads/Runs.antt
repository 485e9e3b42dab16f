-- ===== src/Threads/Runs.antt =====
-- session.go: the loop of `Lifelines` over the stack signatures of a thread.
pub mod Longest
use utilities.Base.{
  ℕ, zero, ◌+◌, String, Bool, true, false, List, [], ◌∷◌, ◌==◌, string_keyed, ltb, if◌then◌else◌,
}

pub record Run : Type 0 where
  pub run : ℕ
  pub best : ℕ
  pub prev : String

-- One signature: the empty one, of a dump without the thread, ends the run.
unfoldable pub next_run : String → Run → Run
next_run sig r =
    if sig == ""
    then record r { run = 0; prev = "" }
    else let n = if sig == r.prev then r.run + 1 else 1 in
      record { run = n; best = if ltb r.best n then n else r.best; prev = sig }

unfoldable pub runs : List String → Run → Run
unfolding next_run
runs [] r = r
runs (sig ∷ sigs) r = runs sigs (next_run sig r)

unfoldable pub signature_run_max : List String → ℕ
unfolding runs
signature_run_max sigs = (runs sigs (record { run = 0; best = 0; prev = "" })).best
