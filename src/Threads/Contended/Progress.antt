-- ===== src/Threads/Contended/Progress.antt =====
-- progression.go: `LockProgressions`, from what each dump says of each lock to the row of a lock.
pub mod Columns
pub mod Stable
use utilities.Base.{
  ℕ, zero, suc, ◌+◌, String, Bool, true, false, not, ◌&&◌, Option, none, some, List, [], ◌∷◌, ◌++◌,
  ◌==◌, string_keyed, Dict, has, lookup, insert, map, length, set, replicate, sort_by, ltb, eqb,
  if◌then◌else◌,
}
use utilities.Threads.Dump.{LockRef, Thread, holds, waiting_on}
use utilities.Threads.Waits.{holder_by_lock}
use utilities.Threads.Deadlocks.{string_ltb}
use utilities.Threads.Contended.{or_zero, or_empty, count_up}

-- The loop that finds the greatest number of waiters.
unfoldable pub peak_waiters : List ℕ → ℕ → ℕ
peak_waiters [] peak = peak
peak_waiters (n ∷ ns) peak = peak_waiters ns (if ltb peak n then n else peak)

-- The loop over the holders; a lock without a holder has "". It gives `named` and `seenDiff`.
unfoldable pub named_holder : List String → String → String × Bool
named_holder [] named = (named, false)
named_holder (h ∷ hs) named =
    let rest = named_holder hs named in
    let first = named_holder hs h in
    if h == ""
    then rest
    else if named == ""
    then first
    else if not (named == h)
    then (named, true)
    else rest

unfoldable pub holder_stable : List String → Bool
unfolding named_holder
holder_stable holders =
    let (named, seen_diff) = named_holder holders "" in not (named == "") && not seen_diff

pub record LockProgression : Type 0 where
  pub lock_id : String
  pub lock_class : String
  pub holders : List String
  pub waiter_cnts : List ℕ
  pub holder_stable : Bool
  pub peak_waiters : ℕ

pub record Slot : Type 0 where
  pub holders : List String
  pub waiters : List ℕ
  pub class : String

-- `classByID` from the locks that are held, of one thread and of all.
abbrev pub held_classes : List LockRef → Dict String String → Dict String String
held_classes [] classes = classes
held_classes (l ∷ ls) classes = held_classes ls (insert l.id l.class classes)

unfoldable pub all_held_classes : List Thread → Dict String String → Dict String String
unfolding holds
all_held_classes [] classes = classes
all_held_classes (t ∷ ts) classes = all_held_classes ts (held_classes (holds t.locks) classes)

-- The number of waiters of each lock, and the classes of the locks that nobody holds.
unfoldable pub count_waiters :
    List Thread → Dict String ℕ × Dict String String → Dict String ℕ × Dict String String
unfolding waiting_on
count_waiters [] found = found
count_waiters (t ∷ ts) (counts, classes) =
    let wo = waiting_on t.locks in
    let same = count_waiters ts (counts, classes) in
    let after = count_waiters ts (
      count_up wo.id counts,
      if has wo.id classes then classes else insert wo.id wo.class classes,
    ) in
    if wo.id == "" then same else after

abbrev pub keys_of {ℓ} : {V : Type ℓ} → Dict String V → List String
keys_of entries = map (λ e. e.0) entries

-- A lock that a dump mentions: `di` is the dump's index, `n` the number of the dumps.
abbrev pub merge_lock :
    ℕ
    → ℕ
    → Dict String String
    → Dict String ℕ
    → Dict String String
    → String
    → Dict String Slot
    → Dict String Slot
merge_lock n di holder counts classes id state =
    let new : Slot = record {
      holders = replicate n "";
      waiters = replicate n 0;
      class = or_empty (lookup id classes);
    } in
    let sl : Slot = elim (lookup id state) [ none ↦ new | some sl ↦ sl ] in
    insert id
      (record sl {
        holders = set sl.holders di (or_empty (lookup id holder));
        waiters = set sl.waiters di (or_zero (lookup id counts));
      })
      state

-- A lock that is held and waited for is merged twice, with the same effect.
unfoldable pub merge_locks :
    ℕ
    → ℕ
    → Dict String String
    → Dict String ℕ
    → Dict String String
    → List String
    → Dict String Slot
    → Dict String Slot
merge_locks n di holder counts classes [] state = state
merge_locks n di holder counts classes (id ∷ ids) state =
    merge_locks n di holder counts classes ids (merge_lock n di holder counts classes id state)

unfoldable pub merge_dumps : ℕ → ℕ → List (List Thread) → Dict String Slot → Dict String Slot
unfolding holder_by_lock all_held_classes count_waiters merge_locks
merge_dumps n di [] state = state
merge_dumps n di (d ∷ ds) state =
    let holder = holder_by_lock d [] in
    let (counts, classes) = count_waiters d ([], all_held_classes d []) in
    merge_dumps n (di + 1) ds
      (merge_locks n di holder counts classes (keys_of holder ++ keys_of counts) state)

unfoldable pub progression_of : String → Slot → LockProgression
unfolding peak_waiters holder_stable
progression_of id sl = record {
  lock_id = id;
  lock_class = sl.class;
  holders = sl.holders;
  waiter_cnts = sl.waiters;
  holder_stable = holder_stable sl.holders;
  peak_waiters = peak_waiters sl.waiters 0;
}

abbrev pub is_busier : LockProgression → LockProgression → Bool
is_busier a b =
    if eqb a.peak_waiters b.peak_waiters
    then string_ltb a.lock_id b.lock_id
    else ltb b.peak_waiters a.peak_waiters

unfoldable pub lock_progressions : List (List Thread) → List LockProgression
unfolding merge_dumps progression_of sort_by
lock_progressions dumps =
    sort_by is_busier (map (λ e. progression_of e.0 e.1) (merge_dumps (length dumps) 0 dumps []))
