-- ===== src/Cluster/Rollback.antt =====
-- cluster.go: what `Start` has sent when it returns.
use utilities.Base.{
  ℕ, ◌≡◌, refl, ap, sym, ◌∙◌, ◌⊎◌, inl, inr, String, true, false, none, some, List, [], ◌∷◌, ◌++◌,
  map, append_nil, snoc-append, Sum-cases, if_of_false,
}
use utilities.Cluster.Fleet.{
  Worker, Call, CallError, Network, run_id_reply, version_reply, start_one, negotiate_one, stop_one,
}
use utilities.Cluster.Coordinator.{
  RunningWorker, Coordinator, StartError, finish_start, running, version_or, roll_back,
  start_workers, start,
}

-- Each worker is started, and asked for its version.
abbrev pub started_calls : String → List Worker → List Call
started_calls body [] = []
started_calls body (w ∷ ws) = Call.post_start w body ∷ Call.get_health w ∷ started_calls body ws

abbrev pub workers_of : List RunningWorker → List Worker
workers_of rws = map (λ r. r.worker) rws

abbrev pub stop_calls : List Worker → List Call
stop_calls ws = map Call.post_stop ws

-- All the workers run, and were asked in order.
abbrev pub AllStarted :
    String
    → List Worker
    → List RunningWorker
    → List Call
    → (StartError ⊎ List RunningWorker) × List Call
    → Type 0
AllStarted body ws started log result =
    (rws : List RunningWorker) × (workers_of rws ≡ ws)
    × (result ≡ (inr (started ++ rws), log ++ started_calls body ws))

-- A worker failed: those before it were started, those after it were not asked, and each one that was
-- started was then stopped.
abbrev pub Undone :
    String
    → List Worker
    → List RunningWorker
    → List Call
    → (StartError ⊎ List RunningWorker) × List Call
    → Type 0
Undone body ws started log result =
    (before : List Worker) × (w : Worker) × (after : List Worker) × (e : CallError) × (ws
      ≡ before ++ w ∷ after)
    × (result ≡ (
      inl (StartError.worker_failed w.url e),
      (log ++ started_calls body before)
          ++ Call.post_start w body ∷ (stop_calls (workers_of started) ++ stop_calls before),
    ))

module _ (net : Network) where
  roll_back_lem :
      (rws : List RunningWorker) (log : List Call)
      → roll_back net rws log ≡ log ++ stop_calls (workers_of rws)
  unfolding roll_back stop_one
  roll_back_lem [] log = sym (append_nil log)
  roll_back_lem (r ∷ rws) log =
      roll_back_lem rws (log ++ Call.post_stop r.worker ∷ [])
      ∙ snoc-append log (stop_calls (workers_of rws)) (Call.post_stop r.worker)

  workers_of-append :
      (rws : List RunningWorker) (r : RunningWorker)
      → stop_calls (workers_of (rws ++ r ∷ []))
        ≡ stop_calls (workers_of rws) ++ Call.post_stop r.worker ∷ []
  workers_of-append [] r = refl
  workers_of-append (x ∷ rws) r = ap (λ l. Call.post_stop x.worker ∷ l) (workers_of-append rws r)

  -- The log after a worker was started and asked for its version.
  two_more :
      (log rest : List Call) (a b : Call)
      → ((log ++ a ∷ []) ++ b ∷ []) ++ rest ≡ log ++ a ∷ b ∷ rest
  two_more log rest a b = snoc-append (log ++ a ∷ []) rest b ∙ snoc-append log (b ∷ rest) a

  undone_log :
      (log rest : List Call) (a b p : Call) (started : List RunningWorker) (r : RunningWorker)
      (stops : List Call)
      → (((log ++ a ∷ []) ++ b ∷ []) ++ rest)
          ++ p ∷ (stop_calls (workers_of (started ++ r ∷ [])) ++ stops)
        ≡ (log ++ a ∷ b ∷ rest)
          ++ p ∷ (stop_calls (workers_of started) ++ Call.post_stop r.worker ∷ stops)
  undone_log log rest a b p started r stops =
      rw
        (
          two_more log rest a b,
          workers_of-append started r,
          snoc-append (stop_calls (workers_of started)) stops (Call.post_stop r.worker),
        )
        refl

  start_workers-cases :
      (body : String) (ws : List Worker) (started : List RunningWorker) (log : List Call)
      → AllStarted body ws started log (start_workers net body ws started log)
        ⊎ Undone body ws started log (start_workers net body ws started log)
  unfolding start_workers start_one negotiate_one
  start_workers-cases body [] started log =
      inl ([], refl, rw (append_nil started, append_nil log) refl)
  start_workers-cases body (w ∷ ws) started log =
      elim (Sum-cases (run_id_reply net (net.respond log (Call.post_start w body)))) [
        | inl (e, failed) ↦ inr (
          [],
          w,
          ws,
          e,
          refl,
          rw (start_workers, failed)
              (ap (λ l. (inl (StartError.worker_failed w.url e), l))
                (roll_back_lem started (log ++ Call.post_start w body ∷ [])
                  ∙ rw (append_nil log, append_nil (stop_calls (workers_of started)))
                      (snoc-append log (stop_calls (workers_of started))
                        (Call.post_start w body)))),
        )
        | inr (run_id, ok) ↦
            let log' = log ++ Call.post_start w body ∷ [] in
            let log'' = log' ++ Call.get_health w ∷ [] in
            let r =
              running w run_id
                (version_or (version_reply net (net.respond log' (Call.get_health w)))) in
            elim (start_workers-cases body ws (started ++ r ∷ []) log'') [
              | inl (rws, same, done) ↦ inl (
                r ∷ rws,
                ap (λ l. w ∷ l) same,
                rw (start_workers, ok)
                    (done
                      ∙ rw
                          (
                            snoc-append started rws r,
                            two_more log (started_calls body ws) (Call.post_start w body)
                                (Call.get_health w),
                          )
                          refl),
              )
              | inr (before, v, after, e, same, done) ↦ inr (
                w ∷ before,
                v,
                after,
                e,
                ap (λ l. w ∷ l) same,
                rw (start_workers, ok)
                    (done
                      ∙ ap (λ l. (inl (StartError.worker_failed v.url e), l))
                          (undone_log log (started_calls body before) (Call.post_start w body)
                            (Call.get_health w) (Call.post_start v body) started r
                            (stop_calls before))),
              )
            ]
      ]

  start-idle :
      (body : String) (w : Worker) (ws : List Worker) (now : ℕ) (c : Coordinator) (log : List Call)
      → c.active ≡ false
      → start net (some body) (w ∷ ws) now c log
        ≡ finish_start now c (start_workers net body (w ∷ ws) [] log)
  unfolding start
  start-idle body w ws now c log idle =
      if_of_false c.active (inl StartError.already_active, c, log)
        (finish_start now c (start_workers net body (w ∷ ws) [] log)) idle

  -- `Start` where no run is active, there are workers and the configuration can be split. Either all of
  -- them run: they were asked in order and the coordinator keeps them. Or one failed: the workers before
  -- it, no others, were told to stop after that, and the coordinator is as before.
  pub start-cases :
      (body : String) (w : Worker) (ws : List Worker) (now : ℕ) (c : Coordinator) (log : List Call)
      → c.active ≡ false
      → ((rws : List RunningWorker) × (workers_of rws ≡ w ∷ ws)
          × (start net (some body) (w ∷ ws) now c log ≡ (
            inr (map (λ r. r.run_id) rws),
            record c {
              active = true;
              run = some now;
              started_at = now;
              stopped_at = none;
              workers = rws;
            },
            log ++ started_calls body (w ∷ ws),
          )))
        ⊎ ((before : List Worker) × (v : Worker) × (after : List Worker) × (e : CallError) × (w ∷ ws
              ≡ before ++ v ∷ after)
            × (start net (some body) (w ∷ ws) now c log ≡ (
              inl (StartError.worker_failed v.url e),
              c,
              (log ++ started_calls body before) ++ Call.post_start v body ∷ stop_calls before,
            )))
  unfolding start
  start-cases body w ws now c log idle = elim (start_workers-cases body (w ∷ ws) [] log) [
    | inl (rws, same, done) ↦
        inl (rws, same, start-idle body w ws now c log idle ∙ ap (finish_start now c) done)
    | inr (before, v, after, e, same, done) ↦ inr (
      before,
      v,
      after,
      e,
      same,
      start-idle body w ws now c log idle ∙ ap (finish_start now c) done,
    )
  ]
