-- ===== src/Cluster/Tests.antt =====
-- A cluster of three workers, the second of which may refuse.
use utilities.Base.{
  ℕ, ◌+◌, ◌%◌, ◌^◌, ◌≡◌, ◌⊎◌, refl, inl, inr, String, true, false, none, some, List, [], ◌∷◌, ◌++◌,
  map, ◌==◌, string_keyed, Dict, lookup, pos, if◌then◌else◌, arith,
}
use utilities.Cluster.Fleet.{
  Worker, Call, Reply, CallError, Network, run_id_reply, start_one, version_reply, negotiate_one,
  stop_reply, stop_one,
}
use utilities.Cluster.Coordinator.{
  RunningWorker, Coordinator, StartError, running, no_counters, roll_back, start_workers, start,
  stop,
}
use utilities.Cluster.Rollback.{started_calls, workers_of, stop_calls, start-cases}
use utilities.Cluster.Stopped.{stop_error, stop_lem}
use utilities.Cluster.Split.{Json, split_fields, IsShare, split_fields-IsShare}
use utilities.Cluster.Merge.{merge_worker_statuses, row_of, sum, merge_worker_statuses_lem}
use utilities.Cluster.Steps.{
  World, Held, Step, Reachable, answered, write_start, write_status, write_stop, IsManned,
  Reachable-IsManned,
}

abbrev worker : String → Worker
worker url = record { url = url; auth_user = ""; auth_pass = "" }

-- `two` answers nothing, the others run.
abbrev answer : Call → Reply
answer (Call.post_start w body) =
    if w.url == "two" then Reply.lost "timeout" else Reply.replied 200 "run"
answer (Call.get_health w) = Reply.replied 200 "v1"
answer (Call.get_status w) = Reply.replied 500 ""
answer (Call.post_stop w) = Reply.replied 200 ""

abbrev network : Network
network = record {
  respond = λ log call. answer call;
  run_id_of = λ body. some body;
  version_of = λ body. some body;
  status_of = λ body. none;
}

abbrev idle : Coordinator
idle = record {
  active = false;
  run = none;
  started_at = 0;
  stopped_at = none;
  workers = [];
  master_version = "v1";
}

abbrev rest : List Worker
rest = worker "two" ∷ worker "three" ∷ []

test_start : start network (some "{}") (worker "one" ∷ rest) 9 idle [] ≡ (
  inl (StartError.worker_failed "two" (CallError.unreachable "timeout")),
  idle,
  Call.post_start (worker "one") "{}"
      ∷ Call.get_health (worker "one")
      ∷ Call.post_start (worker "two") "{}"
      ∷ Call.post_stop (worker "one")
      ∷ [],
)
unfolding start start_workers start_one run_id_reply negotiate_one version_reply roll_back stop_one
    stop_reply
test_start = refl

-- A worker that has answered a start without the id of a run is not told to stop.
abbrev nameless : Network
nameless = record network { run_id_of = λ body. some "" }

test_nameless : start nameless (some "{}") (worker "one" ∷ []) 9 idle [] ≡ (
  inl (StartError.worker_failed "one" CallError.no_run_id),
  idle,
  Call.post_start (worker "one") "{}" ∷ [],
)
unfolding start start_workers start_one run_id_reply negotiate_one version_reply roll_back stop_one
    stop_reply
test_nameless = refl

start-cases_example :
    ((rws : List RunningWorker) × (workers_of rws ≡ worker "one" ∷ rest)
      × (start network (some "{}") (worker "one" ∷ rest) 9 idle [] ≡ (
        inr (map (λ r. r.run_id) rws),
        record idle {
          active = true;
          run = some 9;
          started_at = 9;
          stopped_at = none;
          workers = rws;
        },
        [] ++ started_calls "{}" (worker "one" ∷ rest),
      )))
    ⊎ ((before : List Worker) × (v : Worker) × (after : List Worker) × (e : CallError) × (worker
              "one"
            ∷ rest
          ≡ before ++ v ∷ after)
        × (start network (some "{}") (worker "one" ∷ rest) 9 idle [] ≡ (
          inl (StartError.worker_failed v.url e),
          idle,
          ([] ++ started_calls "{}" before) ++ Call.post_start v "{}" ∷ stop_calls before,
        )))
start-cases_example = start-cases network "{}" (worker "one") rest 9 idle [] refl

abbrev rws : List RunningWorker
rws = running (worker "one") "run" "v1" ∷ running (worker "two") "run" "v1" ∷ []

abbrev busy : Coordinator
busy = record idle { active = true; run = some 9; started_at = 9; workers = rws }

test_stop : stop network 12 busy [] ≡ (
  stop_error network rws [],
  record busy { active = false; stopped_at = some 12 },
  [] ++ stop_calls (workers_of rws),
)
test_stop = stop_lem network 12 busy [] refl

abbrev fields : Dict String (Json ℕ)
fields = ("host", Json.other "h") ∷ ("files_per_minute", Json.number 100) ∷ []

rate_is_set : lookup "files_per_minute" fields ≡ some (Json.number 100)
unfolding lookup
rate_is_set = refl

split_fields-IsShare_example :
    (q : ℕ) × IsShare 100 3 q
    × ((field : String)
        → lookup field (split_fields pos fields 3)
          ≡ (if "files_per_minute" == field then some (Json.int (pos q)) else lookup field fields))
split_fields-IsShare_example =
    split_fields-IsShare pos fields 100 100 3 (omega arith) rate_is_set refl

abbrev polled_workers : List RunningWorker
polled_workers =
    record (running (worker "one") "run" "v1") {
      last_stat = record no_counters { total_files = 2 ^ 63 };
    }
    ∷ record (running (worker "two") "run" "v2") {
      last_err = some CallError.undecodable;
      last_stat = record no_counters { total_files = 2 ^ 63 + 5 };
    }
    ∷ []

test_merge_worker_statuses :
    let s = merge_worker_statuses true 9 "v1" polled_workers in
    (s.workers ≡ map (row_of "v1") polled_workers)
    × (s.total_files ≡ sum (map (λ w. w.last_stat.total_files) polled_workers) % 2 ^ 64)
    × (s.total_bytes ≡ sum (map (λ w. w.last_stat.total_bytes) polled_workers) % 2 ^ 64)
    × (s.failed_files ≡ sum (map (λ w. w.last_stat.failed_files) polled_workers) % 2 ^ 64)
    × (s.dispatch_skips ≡ sum (map (λ w. w.last_stat.dispatch_skips) polled_workers) % 2 ^ 64)
test_merge_worker_statuses = merge_worker_statuses_lem true 9 "v1" polled_workers

-- A poll that has read the workers of one run, and writes them when that run is over and another one
-- has started: the workers of the new run are forgotten.
abbrev first_run : Coordinator
first_run = write_start 9 idle (running (worker "one") "run" "v1" ∷ [])

abbrev second_run : Coordinator
second_run = write_start 20 (write_stop 12 first_run) (running (worker "two") "run" "v1" ∷ [])

test_lost_workers :
    write_status second_run (answered (inr no_counters ∷ []) first_run.workers)
    ≡ record second_run { workers = first_run.workers }
test_lost_workers = refl

-- Two starts that have both found no run.
abbrev both : World
both = record {
  coordinator = idle;
  held = Held.starting rest ∷ Held.starting (worker "one" ∷ []) ∷ [];
}

both-Reachable : Reachable (record { coordinator = idle; held = [] }) both
both-Reachable =
    Reachable.next (record { coordinator = idle; held = Held.starting (worker "one" ∷ []) ∷ [] })
      both
      (Reachable.next (record { coordinator = idle; held = [] })
        (record { coordinator = idle; held = Held.starting (worker "one" ∷ []) ∷ [] })
        Reachable.here (Step.start_read idle [] (worker "one") [] refl))
      (Step.start_read idle (Held.starting (worker "one" ∷ []) ∷ []) (worker "two")
        (worker "three" ∷ []) refl)

Reachable-IsManned_example : IsManned both
Reachable-IsManned_example = Reachable-IsManned idle both refl both-Reachable
