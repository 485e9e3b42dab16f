-- ===== src/Cluster/Steps.antt =====
-- cluster.go: `Start`, `Status` and `Stop` at the same time. Each of them takes the coordinator's lock
-- twice, and what it read the first time is in its hands while it waits for the workers.
use utilities.Base.{ℕ, ◌≡◌, ◌⊎◌, true, false, none, some, List, [], ◌∷◌, ◌++◌, map, All}
use utilities.Cluster.Fleet.{Worker, CallError, Counters}
use utilities.Cluster.Coordinator.{RunningWorker, Coordinator, polled}

-- What a call holds between its two critical sections: the workers to start, or those it has read.
pub data Held : Type 0 where
  starting : List Worker → Held
  polling : List RunningWorker → Held
  stopping : List RunningWorker → Held

pub record World : Type 0 where
  pub coordinator : Coordinator
  pub held : List Held

-- The workers with the answers of a poll, in order.
abbrev pub answered : List (CallError ⊎ Counters) → List RunningWorker → List RunningWorker
answered [] rws = rws
answered (a ∷ answers) [] = []
answered (a ∷ answers) (r ∷ rws) = polled a r ∷ answered answers rws

abbrev pub write_status : Coordinator → List RunningWorker → Coordinator
write_status c rws = record c { workers = rws }

abbrev pub write_stop : ℕ → Coordinator → Coordinator
write_stop now c = record c { active = false; stopped_at = some now }

abbrev pub write_start : ℕ → Coordinator → List RunningWorker → Coordinator
write_start now c rws = record c {
  active = true;
  run = some now;
  started_at = now;
  stopped_at = none;
  workers = rws;
}

-- One critical section.
pub data Step : World → World → Type 0 where
  start_read :
      (c : Coordinator) (hs : List Held) (w : Worker) (ws : List Worker)
      → c.active ≡ false
      → Step
          (record { coordinator = c; held = hs })
          (record { coordinator = c; held = Held.starting (w ∷ ws) ∷ hs })
  start_write :
      (c : Coordinator) (before after : List Held) (ws : List Worker) (rws : List RunningWorker)
      (now : ℕ)
      → map (λ r. r.worker) rws ≡ ws
      → Step
          (record { coordinator = c; held = before ++ Held.starting ws ∷ after })
          (record { coordinator = write_start now c rws; held = before ++ after })
  start_fail :
      (c : Coordinator) (before after : List Held) (ws : List Worker)
      → Step
          (record { coordinator = c; held = before ++ Held.starting ws ∷ after })
          (record { coordinator = c; held = before ++ after })
  status_read :
      (c : Coordinator) (hs : List Held)
      → c.active ≡ true
      → Step
          (record { coordinator = c; held = hs })
          (record { coordinator = c; held = Held.polling c.workers ∷ hs })
  status_write :
      (c : Coordinator) (before after : List Held) (rws : List RunningWorker)
      (answers : List (CallError ⊎ Counters))
      → Step
          (record { coordinator = c; held = before ++ Held.polling rws ∷ after })
          (record { coordinator = write_status c (answered answers rws); held = before ++ after })
  stop_read :
      (c : Coordinator) (hs : List Held)
      → c.active ≡ true
      → Step
          (record { coordinator = c; held = hs })
          (record { coordinator = c; held = Held.stopping c.workers ∷ hs })
  stop_write :
      (c : Coordinator) (before after : List Held) (rws : List RunningWorker) (now : ℕ)
      → Step
          (record { coordinator = c; held = before ++ Held.stopping rws ∷ after })
          (record { coordinator = write_stop now c; held = before ++ after })

pub data Reachable (first : World) : World → Type 0 where
  here : Reachable first first
  next : (w v : World) → Reachable first w → Step w v → Reachable first v

abbrev IsSome {ℓ} : {A : Type ℓ} → List A → Type 0
IsSome [] = ⊥
IsSome (x ∷ xs) = Unit

abbrev HasWorkers : Held → Type 0
HasWorkers (Held.starting ws) = IsSome ws
HasWorkers (Held.polling rws) = IsSome rws
HasWorkers (Held.stopping rws) = IsSome rws

abbrev pub IsManned : World → Type 0
IsManned w = ((w.coordinator.active ≡ true) → IsSome w.coordinator.workers) × All HasWorkers w.held

All-left :
    (before after : List Held) (h : Held)
    → All HasWorkers (before ++ h ∷ after)
    → HasWorkers h × All HasWorkers (before ++ after)
All-left [] after h all = all
All-left (x ∷ before) after h all =
    let (this, rest) = All-left before after h all.1 in (this, (all.0, rest))

answered-IsSome :
    (answers : List (CallError ⊎ Counters)) (rws : List RunningWorker)
    → IsSome rws
    → IsSome (answered answers rws)
answered-IsSome [] rws some_workers = some_workers
answered-IsSome (a ∷ answers) [] none_there = none_there
answered-IsSome (a ∷ answers) (r ∷ rws) some_workers = tt

started-IsSome :
    (rws : List RunningWorker) (ws : List Worker)
    → map (λ r. r.worker) rws ≡ ws
    → IsSome ws
    → IsSome rws
started-IsSome [] [] same some_workers = some_workers
started-IsSome [] (w ∷ ws) same some_workers = cc
started-IsSome (r ∷ rws) ws same some_workers = tt

Step-IsManned : (w v : World) → Step w v → IsManned w → IsManned v
Step-IsManned _ _ (Step.start_read c hs w ws idle) (runs, held) = (runs, (tt, held))
Step-IsManned _ _ (Step.start_write c before after ws rws now same) (runs, held) =
    let (this, rest) = All-left before after (Held.starting ws) held in
    (λ e. started-IsSome rws ws same this, rest)
Step-IsManned _ _ (Step.start_fail c before after ws) (runs, held) =
    (runs, (All-left before after (Held.starting ws) held).1)
Step-IsManned _ _ (Step.status_read c hs active) (runs, held) = (runs, (runs active, held))
Step-IsManned _ _ (Step.status_write c before after rws answers) (runs, held) =
    let (this, rest) = All-left before after (Held.polling rws) held in
    (λ e. answered-IsSome answers rws this, rest)
Step-IsManned _ _ (Step.stop_read c hs active) (runs, held) = (runs, (runs active, held))
Step-IsManned _ _ (Step.stop_write c before after rws now) (runs, held) =
    (λ e. cc, (All-left before after (Held.stopping rws) held).1)

-- In whatever order the critical sections of concurrent `Start`, `Status` and `Stop` calls follow each
-- other, whatever the workers answer: from a coordinator without a run, an active coordinator has
-- workers.
pub Reachable-IsManned :
    (c : Coordinator) (w : World)
    → c.active ≡ false
    → Reachable (record { coordinator = c; held = [] }) w
    → IsManned w
Reachable-IsManned c w idle Reachable.here = (λ e. cc, tt)
Reachable-IsManned c _ idle (Reachable.next w v before step) =
    Step-IsManned w v step (Reachable-IsManned c w idle before)
