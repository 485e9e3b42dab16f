-- ===== src/Threads/Tests.antt =====
-- The thread dumps of small incidents.
use utilities.Base.{
  Any, ◌⊎◌, ℕ, ◌≤◌, ◌≡◌, refl, ◌⊎◌, String, true, false, some, List, [], ◌∷◌, map, Dict, lookup,
  insert, string_keyed, All, Any, arith, sort_by, insert_by,
}
use utilities.Threads.Dump.{LockRef, Frame, Thread, holds, waiting_on}
use utilities.Threads.Waits.{Edge, hold_all, holder_by_lock, edge_of, wait_edges, wait_graph}
use utilities.Threads.Deadlocks.{
  Search, walk, search_from, find_cycles, min_idx, canonical_cycle_key, dedupe_cycles,
}
use utilities.Threads.Deadlocks.Explained.{IsCycle, Explained}
use utilities.Threads.Deadlocks.Found.{find_cycles-Explained}
use utilities.Threads.Runs.{next_run, runs, signature_run_max}
use utilities.Threads.Runs.Longest.{IsRun, signature_run_max_lem}
use utilities.Threads.Lifelines.{
  ThreadKey, key_keyed, pool, frame_lines, stack_text, stack_sig, frozen_threads,
}
use utilities.Threads.Predicted.{
  chain_from, closer_of, add_chain, chains_from, dedupe_chains, predict_deadlocks,
}
use utilities.Threads.Contended.{
  count_states, state_rows, states, waiters_by_id, top_contention, group_threads, sig_groups,
}
use utilities.Threads.Contended.Progress.{
  peak_waiters, named_holder, holder_stable, all_held_classes, count_waiters, merge_locks,
  merge_dumps, progression_of, lock_progressions,
}
use utilities.Threads.Lifelines.Continuity.{sig_at, Reported, frozen_threads-Any}

abbrev locked : String → LockRef
locked id = record { id = id; class = "java.lang.Object"; op = "locked" }

abbrev wants : String → LockRef
wants id = record { id = id; class = "java.lang.Object"; op = "waiting to lock" }

abbrev frame : String → Frame
frame method = record {
  class = "App";
  method = method;
  source = "App.java";
  native = false;
  compiled = false;
}

abbrev thread : String → List LockRef → Thread
thread name locks = record {
  name = name;
  tid = name;
  state = "BLOCKED";
  frames = frame "run" ∷ [];
  locks = locks;
}

-- Two threads that wait for each other, and a third one that waits for the first.
abbrev dump : List Thread
dump =
    thread "a" (locked "1" ∷ wants "2" ∷ [])
    ∷ thread "b" (locked "2" ∷ wants "1" ∷ [])
    ∷ thread "c" (wants "1" ∷ [])
    ∷ []

abbrev waiting : Dict String Edge
waiting =
    ("a", record { to = "b"; lock = wants "2" })
    ∷ ("b", record { to = "a"; lock = wants "1" })
    ∷ ("c", record { to = "a"; lock = wants "1" })
    ∷ []

test_wait_graph : wait_graph dump ≡ waiting
unfolding wait_graph holder_by_lock wait_edges edge_of hold_all holds waiting_on lookup insert
test_wait_graph = refl

test_deadlocks :
    map
      (λ c. c.threads)
      (dedupe_cycles [] (
        record { threads = "b" ∷ "a" ∷ []; locks = [] }
        ∷ record { threads = "a" ∷ "b" ∷ []; locks = [] }
        ∷ []))
    ≡ ("b" ∷ "a" ∷ []) ∷ []
unfolding dedupe_cycles canonical_cycle_key min_idx
test_deadlocks = refl

-- The names of two different cycles may give one key.
test_canonical_cycle_key :
    canonical_cycle_key ("a" ∷ "b→c" ∷ []) ≡ canonical_cycle_key ("a→b" ∷ "c" ∷ [])
unfolding canonical_cycle_key min_idx
test_canonical_cycle_key = refl

-- The lock of a place is the one that its thread waits for, not one that it holds.
test_locks :
    find_cycles waiting
    ≡ some (record {
      done = "c" ∷ "a" ∷ "b" ∷ [];
      cycles = record { threads = "a" ∷ "b" ∷ []; locks = wants "2" ∷ wants "1" ∷ [] } ∷ [];
    })
unfolding find_cycles search_from walk lookup
test_locks = refl

find_cycles-Explained_example :
    (s : Search) × (find_cycles waiting ≡ some s)
    × All (IsCycle waiting) s.cycles
    × ((x : String) → Explained waiting s.cycles x)
find_cycles-Explained_example = find_cycles-Explained waiting

abbrev signatures : List String
signatures = "x" ∷ "" ∷ "y" ∷ "y" ∷ "x" ∷ []

test_signature_run_max : signature_run_max signatures ≡ 2
unfolding signature_run_max runs next_run
test_signature_run_max = refl

test_signature_run_max_all :
    ((signature_run_max signatures ≡ 0) ⊎ IsRun (signature_run_max signatures) signatures)
    × ((n : ℕ) → IsRun n signatures → n ≤ signature_run_max signatures)
test_signature_run_max_all = signature_run_max_lem signatures

test_pool : pool "HikariPool-1 housekeeper" ≡ "hikari"
unfolding pool
test_pool = refl

abbrev digest : String → String
digest text = text

abbrev key_a : ThreadKey
key_a = record { name = "a"; tid = "a" }

abbrev dumps : List (List Thread)
dumps = dump ∷ dump ∷ []

dumps-IsRun : IsRun 2 (map (sig_at digest 8 key_a) dumps)
unfolding stack_sig stack_text frame_lines
dumps-IsRun = ([], "App.run@App.java\n", [], λ e. cc, refl)

frozen_threads-Any_example :
    Any (Reported key_a (map (sig_at digest 8 key_a) dumps) 2) (frozen_threads digest dumps 2 0)
frozen_threads-Any_example =
    frozen_threads-Any digest dumps 2 0 key_a 2 (omega arith) (omega arith) dumps-IsRun

-- `p` waits for `q`, which waits for `r`; `q` is in a chain of two only.
abbrev chain_dump : List Thread
chain_dump =
    thread "p" (wants "1" ∷ [])
    ∷ thread "q" (locked "1" ∷ wants "2" ∷ [])
    ∷ thread "r" (locked "2" ∷ [])
    ∷ []

test_predict_deadlocks :
    predict_deadlocks chain_dump
    ≡ some (
        record { chain = "p" ∷ "q" ∷ "r" ∷ []; locks = wants "1" ∷ wants "2" ∷ []; closer = "" }
        ∷ [])
unfolding predict_deadlocks wait_graph holder_by_lock wait_edges edge_of hold_all holds waiting_on
    lookup insert chains_from chain_from add_chain closer_of dedupe_chains sort_by insert_by
test_predict_deadlocks = refl

test_states : states dump ≡ ("BLOCKED", 3) ∷ []
unfolding states count_states state_rows lookup insert
test_states = refl

test_top_contention :
    map {B = String × (String × List String)}
      (λ c. (c.lock.id, (c.holder, c.waiters)))
      (top_contention dump 5)
    ≡ ("1", ("a", "b" ∷ "c" ∷ [])) ∷ ("2", ("b", "a" ∷ [])) ∷ []
unfolding top_contention holder_by_lock waiters_by_id hold_all holds waiting_on lookup insert
    sort_by insert_by
test_top_contention = refl

test_sig_groups : map (λ g. g.threads) (sig_groups digest dump 0) ≡ ("a" ∷ "b" ∷ "c" ∷ []) ∷ []
unfolding sig_groups group_threads stack_sig stack_text frame_lines lookup insert sort_by insert_by
test_sig_groups = refl

-- Lock 1 has one holder, and lock 2 goes from one to the other.
abbrev two_dumps : List (List Thread)
two_dumps =
    dump ∷ (thread "a" (locked "1" ∷ locked "2" ∷ []) ∷ thread "c" (wants "1" ∷ []) ∷ []) ∷ []

test_lock_progressions :
    map (λ r. r.holder_stable) (lock_progressions two_dumps) ≡ true ∷ false ∷ []
unfolding lock_progressions merge_dumps merge_locks all_held_classes count_waiters progression_of
    peak_waiters named_holder holder_stable holder_by_lock hold_all holds waiting_on lookup insert
    sort_by insert_by
test_lock_progressions = refl
