-- ===== src/Cluster/Stopped.antt =====
-- cluster.go: what `Stop` has sent when it returns.
use utilities.Base.{
  ℕ, ◌≡◌, refl, ap, ◌∙◌, true, false, Option, none, some, List, [], ◌∷◌, ◌++◌, append_nil,
  snoc-append, if_of_true,
}
use utilities.Cluster.Fleet.{Call, CallError, Network, stop_one, stop_reply}
use utilities.Cluster.Coordinator.{
  RunningWorker, Coordinator, finish_stop, or_else, stop_workers, stop,
}
use utilities.Cluster.Rollback.{workers_of, stop_calls}

module _ (net : Network) where
  -- The first error of what the workers answer.
  abbrev pub stop_error : List RunningWorker → List Call → Option CallError
  stop_error [] log = none
  stop_error (r ∷ rws) log =
      let rest = stop_error rws (log ++ Call.post_stop r.worker ∷ []) in
      or_else (stop_reply net (net.respond log (Call.post_stop r.worker))) rest

  or_else-or_else : (a b d : Option CallError) → or_else (or_else a b) d ≡ or_else a (or_else b d)
  or_else-or_else none b d = refl
  or_else-or_else (some e) b d = refl

  or_else-none : (a : Option CallError) → or_else a none ≡ a
  or_else-none none = refl
  or_else-none (some e) = refl

  stop_workers_lem :
      (rws : List RunningWorker) (first : Option CallError) (log : List Call)
      → stop_workers net rws first log
        ≡ (or_else first (stop_error rws log), log ++ stop_calls (workers_of rws))
  unfolding stop_workers stop_one
  stop_workers_lem [] first log = rw (append_nil log, or_else-none first) refl
  stop_workers_lem (r ∷ rws) first log =
      let err = stop_reply net (net.respond log (Call.post_stop r.worker)) in
      let log' = log ++ Call.post_stop r.worker ∷ [] in
      stop_workers_lem rws (or_else first err) log'
      ∙ rw
          (
            or_else-or_else first err (stop_error rws log'),
            snoc-append log (stop_calls (workers_of rws)) (Call.post_stop r.worker),
          )
          refl

  -- `Stop` of an active run asks every worker to stop, in order and whatever the others answer; its error
  -- is the first one of the workers, and the run is over, with the workers and their last counters kept.
  pub stop_lem :
      (now : ℕ) (c : Coordinator) (log : List Call)
      → c.active ≡ true
      → stop net now c log ≡ (
        stop_error c.workers log,
        record c { active = false; stopped_at = some now },
        log ++ stop_calls (workers_of c.workers),
      )
  unfolding stop
  stop_lem now c log running_now =
      if_of_true c.active (finish_stop now c (stop_workers net c.workers none log)) (none, c, log)
        running_now
      ∙ ap (finish_stop now c) (stop_workers_lem c.workers none log)
