-- ===== src/Cluster/Coordinator.antt =====
-- cluster.go: `Start`, `Status` and `Stop`, each of them as one step.
use utilities.Base.{
  ℕ, ◌⊎◌, inl, inr, String, Bool, true, false, Option, none, some, List, [], ◌∷◌, ◌++◌, map,
  string_keyed, if◌then◌else◌,
}
use utilities.Cluster.Fleet.{
  Worker, Call, CallError, Counters, Network, start_one, negotiate_one, status_one, stop_one,
}

-- `last_err` is the error of the last poll, `none` for "".
pub record RunningWorker : Type 0 where
  pub worker : Worker
  pub run_id : String
  pub version : String
  pub last_err : Option CallError
  pub last_stat : Counters

-- The times are seconds since 1970; `run` is the time that the name of the run holds, `none` when there
-- was no run.
pub record Coordinator : Type 0 where
  pub active : Bool
  pub run : Option ℕ
  pub started_at : ℕ
  pub stopped_at : Option ℕ
  pub workers : List RunningWorker
  pub master_version : String

pub data StartError : Type 0 where
  already_active : StartError
  no_workers : StartError
  bad_config : StartError
  worker_failed : String → CallError → StartError

abbrev pub no_counters : Counters
no_counters = record {
  active = false;
  total_files = 0;
  total_bytes = 0;
  failed_files = 0;
  dispatch_skips = 0;
}

abbrev pub version_or : CallError ⊎ String → String
version_or (inl e) = ""
version_or (inr v) = v

abbrev pub running : Worker → String → String → RunningWorker
running w run_id version = record {
  worker = w;
  run_id = run_id;
  version = version;
  last_err = none;
  last_stat = no_counters;
}

-- The first error stays.
abbrev pub or_else : Option CallError → Option CallError → Option CallError
or_else none err = err
or_else (some e) err = some e

-- What `Stop` does after its loop.
abbrev pub finish_stop :
    (now : ℕ)
    → Coordinator
    → Option CallError × List Call
    → Option CallError × Coordinator × List Call
finish_stop now c (first, log) = (first, record c { active = false; stopped_at = some now }, log)

-- What `Start` does after its loop.
abbrev pub finish_start :
    (now : ℕ)
    → Coordinator
    → (StartError ⊎ List RunningWorker) × List Call
    → (StartError ⊎ List String) × Coordinator × List Call
finish_start now c (inl e, log) = (inl e, c, log)
finish_start now c (inr rws, log) = (
  inr (map (λ r. r.run_id) rws),
  record c { active = true; run = some now; started_at = now; stopped_at = none; workers = rws },
  log,
)

-- A worker after a poll.
abbrev pub polled : CallError ⊎ Counters → RunningWorker → RunningWorker
polled (inl e) rw' = record rw' { last_err = some e }
polled (inr stat) rw' = record rw' { last_err = none; last_stat = stat }

module _ (net : Network) where
  -- Errors are dropped: the loop that undoes a start.
  unfoldable pub roll_back : List RunningWorker → List Call → List Call
  unfolding stop_one
  roll_back [] log = log
  roll_back (rw' ∷ rws) log = roll_back rws (stop_one net rw'.worker log).1

  -- The loop of `Start`, with the workers that have started.
  unfoldable pub start_workers :
      String
      → List Worker
      → List RunningWorker
      → List Call
      → (StartError ⊎ List RunningWorker) × List Call
  unfolding start_one negotiate_one roll_back
  start_workers body [] started log = (inr started, log)
  start_workers body (w ∷ ws) started log =
      let (result, log') = start_one net w body log in
      elim result [
        | inl e ↦ (inl (StartError.worker_failed w.url e), roll_back started log')
        | inr run_id ↦
            let (version, log'') = negotiate_one net w log' in
            start_workers body ws (started ++ running w run_id (version_or version) ∷ []) log''
      ]

  -- `split` is `splitConfig` for this number of workers; `now` is the time after the loop.
  unfoldable pub start :
      (split : Option String)
      → List Worker
      → (now : ℕ) → Coordinator
      → List Call
      → (StartError ⊎ List String) × Coordinator × List Call
  unfolding start_workers
  start split ws now c log = if c.active then (inl StartError.already_active, c, log) else elim ws [
    | [] ↦ (inl StartError.no_workers, c, log)
    | w ∷ rest ↦ elim split [
      | none ↦ (inl StartError.bad_config, c, log)
      | some body ↦ finish_start now c (start_workers body (w ∷ rest) [] log)
    ]
  ]

  -- The requests are concurrent in the source: this is one order of them.
  unfoldable pub poll_workers : List RunningWorker → List Call → List RunningWorker × List Call
  unfolding status_one
  poll_workers [] log = ([], log)
  poll_workers (rw' ∷ rws) log =
      let (result, log') = status_one net rw'.worker log in
      let (rest, log'') = poll_workers rws log' in (polled result rw' ∷ rest, log'')

  -- The loop of `Stop`.
  unfoldable pub stop_workers :
      List RunningWorker → Option CallError → List Call → Option CallError × List Call
  unfolding stop_one
  stop_workers [] first log = (first, log)
  stop_workers (rw' ∷ rws) first log =
      let (err, log') = stop_one net rw'.worker log in stop_workers rws (or_else first err) log'

  unfoldable pub stop :
      (now : ℕ) → Coordinator → List Call → Option CallError × Coordinator × List Call
  unfolding stop_workers
  stop now c log =
      if c.active then finish_stop now c (stop_workers c.workers none log) else (none, c, log)
