-- ===== src/Threads/Contended/Progress/Stable.antt =====
-- progression.go: the row of a lock.
use utilities.Base.{replicate, ◌≤◌, ◌≡◌, ◌≢◌, ◌↔◌, ◌⊎◌, String, true, List, All, Any, map, length}
use utilities.Threads.Dump.{Thread}
use utilities.Threads.Contended.Progress.Columns.{holder_in, waiters_in}
use utilities.Threads.Contended.Progress.{peak_waiters, holder_stable, LockProgression}

-- One thread has the lock in each dump in which the lock has a holder.
abbrev pub HeldBy : String → List String → Type 0
HeldBy name holders = All (λ h. (h ≡ "") ⊎ (h ≡ name)) holders

abbrev pub IsStable : List String → Type 0
IsStable holders = (name : String) × (name ≢ "") × Any (λ h. h ≡ name) holders × HeldBy name holders

-- What the row of a lock says of the dumps: its lists are what each dump says of the lock, it is
-- stable when one thread has it and no other in all dumps, and its peak is the greatest count.
abbrev pub IsSummary : List (List Thread) → LockProgression → Type 0
IsSummary dumps r =
    (r.holders ≡ map (holder_in r.lock_id) dumps)
    × (r.waiter_cnts ≡ map (waiters_in r.lock_id) dumps)
    × ((r.holder_stable ≡ true) ↔ IsStable r.holders)
    × All (λ n. n ≤ r.peak_waiters) r.waiter_cnts
    × ((r.peak_waiters ≡ 0) ⊎ Any (λ n. n ≡ r.peak_waiters) r.waiter_cnts)

-- No dump says anything of the lock.
abbrev pub IsUnseen : List (List Thread) → String → Type 0
IsUnseen dumps id =
    (map (holder_in id) dumps ≡ replicate (length dumps) "")
    × (map (waiters_in id) dumps ≡ replicate (length dumps) 0)
