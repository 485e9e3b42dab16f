-- ===== src/Threads/Waits.antt =====
-- The wait-for graph that analyzer.go and progression.go build of a dump.
use utilities.Base.{
  String, Option, none, some, List, [], ◌∷◌, ◌==◌, string_keyed, Dict, lookup, insert,
  if◌then◌else◌,
}
use utilities.Threads.Dump.{LockRef, Thread, holds, waiting_on}

-- The thread that is waited for, and the lock.
pub record Edge : Type 0 where
  pub to : String
  pub lock : LockRef

unfoldable pub hold_all : String → List LockRef → Dict String String → Dict String String
hold_all name [] holders = holders
hold_all name (l ∷ ls) holders = hold_all name ls (insert l.id name holders)

-- `holderByLock`: the last thread of the dump that holds a lock is its holder.
unfoldable pub holder_by_lock : List Thread → Dict String String → Dict String String
unfolding holds hold_all
holder_by_lock [] holders = holders
holder_by_lock (t ∷ ts) holders = holder_by_lock ts (hold_all t.name (holds t.locks) holders)

-- The edge of a thread that waits for another one.
unfoldable pub edge_of : Dict String String → Thread → Option Edge
unfolding waiting_on
edge_of holders t =
    let lock = waiting_on t.locks in
    if lock.id == "" then none else elim (lookup lock.id holders) [
      | none ↦ none
      | some holder ↦ if holder == t.name then none else some (record { to = holder; lock = lock })
    ]

unfoldable pub wait_edges : Dict String String → List Thread → Dict String Edge → Dict String Edge
unfolding edge_of
wait_edges holders [] wait = wait
wait_edges holders (t ∷ ts) wait = elim (edge_of holders t) [
  | none ↦ wait_edges holders ts wait
  | some e ↦ wait_edges holders ts (insert t.name e wait)
]

unfoldable pub wait_graph : List Thread → Dict String Edge
unfolding holder_by_lock wait_edges
wait_graph threads = wait_edges (holder_by_lock threads []) threads []
