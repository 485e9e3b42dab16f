-- ===== src/Threads/Predicted.antt =====
-- progression.go: `PredictDeadlocks`, for the threads of the last dump.
pub mod Chains
use utilities.Base.{
  ℕ, zero, suc, ◌+◌, String, Bool, true, false, ◌&&◌, Option, none, some, List, [], ◌∷◌, ◌++◌, ◌==◌,
  string_keyed, Dict, lookup, length, ltb, leb, sort_by, if◌then◌else◌,
}
use utilities.Threads.Dump.{LockRef, Thread, no_lock, holds, waiting_on}
use utilities.Threads.Waits.{Edge, wait_graph}
use utilities.Threads.Deadlocks.{mem, names_of}

pub record PredictedDeadlock : Type 0 where
  pub chain : List String
  pub locks : List LockRef
  pub closer : String

pub data Chain : Type 0 where
  cyclic : Chain
  ended : List String → List LockRef → Chain

-- The inner loop, on fuel; `none` is no fuel left.
unfoldable pub chain_from :
    ℕ → Dict String Edge → List String → List LockRef → String → Option Chain
chain_from zero wait path locks cur = none
chain_from (suc fuel) wait path locks cur =
    if mem cur path then some Chain.cyclic else elim (lookup cur wait) [
      | none ↦ some (Chain.ended (path ++ cur ∷ []) locks)
      | some e ↦ chain_from fuel wait (path ++ cur ∷ []) (locks ++ e.lock ∷ []) e.to
    ]

abbrev pub holds_lock : String → List LockRef → Bool
holds_lock id [] = false
holds_lock id (l ∷ ls) = if l.id == id then true else holds_lock id ls

-- The first thread that holds the one lock and waits for the other.
unfoldable pub closer_of : (start end : String) → List Thread → String
unfolding holds waiting_on
closer_of start end [] = ""
closer_of start end (t ∷ ts) =
    let rest = closer_of start end ts in
    if holds_lock end (holds t.locks) && (waiting_on t.locks).id == start then t.name else rest

abbrev pub first_lock : List LockRef → LockRef
first_lock [] = no_lock
first_lock (l ∷ ls) = l

abbrev pub last_lock : List LockRef → LockRef
last_lock [] = no_lock
last_lock (l ∷ ls) = let rest = last_lock ls in elim ls [ [] ↦ l | _ ∷ _ ↦ rest ]

unfoldable pub add_chain : List Thread → Chain → List PredictedDeadlock → List PredictedDeadlock
unfolding closer_of
add_chain threads Chain.cyclic out = out
add_chain threads (Chain.ended path locks) out =
    if leb 3 (length path) && leb 2 (length locks)
    then out
      ++ record {
        chain = path;
        locks = locks;
        closer = closer_of (first_lock locks).id (last_lock locks).id threads;
      }
        ∷ []
    else out

-- The outer loop over the waiting threads.
unfoldable pub chains_from :
    ℕ
    → Dict String Edge
    → List Thread
    → List String
    → List PredictedDeadlock
    → Option (List PredictedDeadlock)
unfolding chain_from add_chain
chains_from fuel wait threads [] out = some out
chains_from fuel wait threads (start ∷ starts) out = elim (chain_from fuel wait [] [] start) [
  | none ↦ none
  | some c ↦ chains_from fuel wait threads starts (add_chain threads c out)
]

abbrev pub first_name : List String → String
first_name [] = ""
first_name (x ∷ xs) = x

-- Each key once.
unfoldable pub dedupe_chains : List String → List PredictedDeadlock → List PredictedDeadlock
dedupe_chains seen [] = []
dedupe_chains seen (p ∷ ps) =
    let kept = dedupe_chains (first_name p.chain ∷ seen) ps in
    let others = dedupe_chains seen ps in if mem (first_name p.chain) seen then others else p ∷ kept

abbrev pub is_longer : PredictedDeadlock → PredictedDeadlock → Bool
is_longer a b = ltb (length b.chain) (length a.chain)

unfoldable pub predict_deadlocks : List Thread → Option (List PredictedDeadlock)
unfolding wait_graph chains_from dedupe_chains sort_by
predict_deadlocks threads =
    let wait = wait_graph threads in
    elim (chains_from (length wait + 1) wait threads (names_of wait) []) [
      | none ↦ none
      | some out ↦ some (dedupe_chains [] (sort_by is_longer out))
    ]
