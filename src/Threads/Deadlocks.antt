-- ===== src/Threads/Deadlocks.antt =====
-- analyzer.go: `Deadlocks`, which follows the wait-for edges, and `dedupeCycles`.
pub mod Explained
pub mod Marks
pub mod Found
use Prim.Native.Nat.{Ordering}
use Prim.Native.String.{compare}
use utilities.Base.{
  ℕ, zero, suc, ◌+◌, String, Bool, true, false, ◌||◌, Option, none, some, List, [], ◌∷◌, ◌++◌, ◌==◌,
  string_keyed, str_append, Dict, lookup, length, take, drop, map, if◌then◌else◌,
}
use utilities.Threads.Dump.{LockRef, no_lock, Thread}
use utilities.Threads.Waits.{Edge, wait_graph}

pub record DeadlockCycle : Type 0 where
  pub threads : List String
  pub locks : List LockRef

-- `mark` and `cycles` between two walks: the names that are done, and what was found.
pub record Search : Type 0 where
  pub done : List String
  pub cycles : List DeadlockCycle

abbrev pub mem : String → List String → Bool
mem x [] = false
mem x (y ∷ ys) = y == x || mem x ys

-- `path[idx:]`, from the place of `cur` on.
abbrev pub from_name : String → List String → List String
from_name cur [] = []
from_name cur (x ∷ xs) = if x == cur then x ∷ xs else from_name cur xs

abbrev pub lock_of : Dict String Edge → String → LockRef
lock_of wait name = elim (lookup name wait) [ none ↦ no_lock | some e ↦ e.lock ]

abbrev pub cycle_of : Dict String Edge → List String → DeadlockCycle
cycle_of wait names = record { threads = names; locks = map (lock_of wait) names }

-- The inner loop, on fuel; `none` is no fuel left.
unfoldable pub walk : ℕ → Dict String Edge → Search → List String → String → Option Search
walk zero wait s path cur = none
walk (suc fuel) wait s path cur =
    if mem cur path
    then some (record {
      done = path ++ s.done;
      cycles = s.cycles ++ cycle_of wait (from_name cur path) ∷ [];
    })
    else if mem cur s.done
    then some (record s { done = path ++ s.done })
    else elim (lookup cur wait) [
      | none ↦ some (record s { done = (path ++ cur ∷ []) ++ s.done })
      | some e ↦ walk fuel wait s (path ++ cur ∷ []) e.to
    ]

-- The outer loop over the waiting threads.
unfoldable pub search_from : ℕ → Dict String Edge → List String → Search → Option Search
unfolding walk
search_from fuel wait [] s = some s
search_from fuel wait (start ∷ starts) s =
    if mem start s.done then search_from fuel wait starts s else elim (walk fuel wait s [] start) [
      | none ↦ none
      | some s' ↦ search_from fuel wait starts s'
    ]

abbrev pub names_of : Dict String Edge → List String
names_of wait = map (λ e. e.0) wait

-- A path holds each waiting thread once, so the walk is over after as many steps and one more.
unfoldable pub find_cycles : Dict String Edge → Option Search
unfolding search_from
find_cycles wait =
    search_from (length wait + 1) wait (names_of wait) (record { done = []; cycles = [] })

abbrev pub string_ltb : String → String → Bool
string_ltb a b = elim (compare a b) [ Ordering.lt ↦ true | _ ↦ false ]

-- The loop that finds the least name: `i` is the index of the next one, `best` that of the least.
unfoldable pub min_idx : List String → ℕ → ℕ → String → ℕ
min_idx [] i best least = best
min_idx (x ∷ xs) i best least =
    min_idx xs (i + 1) (if string_ltb x least then i else best)
      (if string_ltb x least then x else least)

abbrev pub join : String → List String → String
join sep [] = ""
join sep (x ∷ xs) = elim xs [ [] ↦ x | _ ∷ _ ↦ str_append x (str_append sep (join sep xs)) ]

unfoldable pub canonical_cycle_key : List String → String
unfolding min_idx
canonical_cycle_key [] = ""
canonical_cycle_key (x ∷ xs) =
    let k = min_idx xs 1 0 x in join "→" (drop k (x ∷ xs) ++ take k (x ∷ xs))

unfoldable pub dedupe_cycles : List String → List DeadlockCycle → List DeadlockCycle
unfolding canonical_cycle_key
dedupe_cycles seen [] = []
dedupe_cycles seen (c ∷ cs) =
    let key = canonical_cycle_key c.threads in
    let kept = dedupe_cycles (key ∷ seen) cs in
    let others = dedupe_cycles seen cs in if mem key seen then others else c ∷ kept

unfoldable pub deadlocks : List Thread → Option (List DeadlockCycle)
unfolding wait_graph find_cycles dedupe_cycles
deadlocks threads = elim (find_cycles (wait_graph threads)) [
  | none ↦ none
  | some s ↦ some (dedupe_cycles [] s.cycles)
]
