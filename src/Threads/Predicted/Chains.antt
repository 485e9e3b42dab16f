-- ===== src/Threads/Predicted/Chains.antt =====
-- progression.go: the chains of `PredictDeadlocks`.
use utilities.Base.{
  ◌≤◌, ◌≡◌, String, none, List, [], ◌∷◌, ◌++◌, string_keyed, Dict, lookup, length, map,
}
use utilities.Threads.Dump.{LockRef}
use utilities.Threads.Waits.{Edge}
use utilities.Threads.Deadlocks.{lock_of}
use utilities.Threads.Deadlocks.Explained.{Links}
use utilities.Threads.Predicted.{PredictedDeadlock, Chain}

-- Threads that wait for one another up to one that does not wait, and the locks that they wait for.
abbrev pub IsPath : Dict String Edge → List String → List LockRef → Type 0
IsPath wait chain locks =
    (names : List String) × (last : String) × (chain ≡ names ++ last ∷ [])
    × Links wait names last
    × (lookup last wait ≡ none)
    × (locks ≡ map (lock_of wait) names)

abbrev IsEnded : Dict String Edge → Chain → Type 0
IsEnded wait Chain.cyclic = Unit
IsEnded wait (Chain.ended chain locks) = IsPath wait chain locks

abbrev pub IsPrediction : Dict String Edge → PredictedDeadlock → Type 0
IsPrediction wait p = IsPath wait p.chain p.locks × (3 ≤ length p.chain)
