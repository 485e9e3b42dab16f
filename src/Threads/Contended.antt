-- ===== src/Threads/Contended.antt =====
-- analyzer.go: `States`, `TopContention` and `SigGroups`; progression.go: `LockProgressions`.
pub mod Progress
use utilities.Base.{
  ℕ, zero, suc, ◌+◌, String, Bool, true, false, not, ◌&&◌, ◌||◌, Option, none, some, List, [], ◌∷◌,
  ◌++◌, map, ◌==◌, string_keyed, Dict, has, lookup, insert, length, set, take, replicate, sort_by,
  ltb, leb, eqb, if◌then◌else◌,
}
use utilities.Threads.Dump.{LockRef, no_lock, Frame, Thread, holds, waiting_on}
use utilities.Threads.Waits.{holder_by_lock}
use utilities.Threads.Deadlocks.{string_ltb}
use utilities.Threads.Lifelines.{stack_sig}

abbrev pub or_zero : Option ℕ → ℕ
or_zero none = 0
or_zero (some n) = n

abbrev pub or_empty : Option String → String
or_empty none = ""
or_empty (some s) = s

-- `m[k]++`
abbrev pub count_up : String → Dict String ℕ → Dict String ℕ
count_up key counts = insert key (or_zero (lookup key counts) + 1) counts

unfoldable pub count_states : List Thread → Dict String ℕ → Dict String ℕ
count_states [] counts = counts
count_states (t ∷ ts) counts = count_states ts (count_up t.state counts)

abbrev pub state_order : List String
state_order =
    "NEW" ∷ "RUNNABLE" ∷ "BLOCKED" ∷ "WAITING" ∷ "TIMED_WAITING" ∷ "TERMINATED" ∷ "UNKNOWN" ∷ []

unfoldable pub state_rows : Dict String ℕ → List String → List (String × ℕ)
state_rows counts [] = []
state_rows counts (s ∷ order) =
    let rest = state_rows counts order in
    let c = or_zero (lookup s counts) in if ltb 0 c then (s, c) ∷ rest else rest

unfoldable pub states : List Thread → List (String × ℕ)
unfolding count_states state_rows
states threads = state_rows (count_states threads []) state_order

pub record Contention : Type 0 where
  pub lock : LockRef
  pub holder : String
  pub waiters : List String

pub record Waiters : Type 0 where
  pub lock : LockRef
  pub names : List String

-- `waiters` and `lockByID`.
unfoldable pub waiters_by_id : List Thread → Dict String Waiters → Dict String Waiters
unfolding waiting_on
waiters_by_id [] m = m
waiters_by_id (t ∷ ts) m =
    let wo = waiting_on t.locks in
    let old : List String = elim (lookup wo.id m) [ none ↦ [] | some w ↦ w.names ] in
    let after =
      waiters_by_id ts (insert wo.id (record { lock = wo; names = old ++ t.name ∷ [] }) m) in
    let same = waiters_by_id ts m in if wo.id == "" then same else after

abbrev pub is_more_contended : Contention → Contention → Bool
is_more_contended a b =
    if eqb (length a.waiters) (length b.waiters)
    then string_ltb a.lock.id b.lock.id
    else ltb (length b.waiters) (length a.waiters)

-- `n` is 0 for any number that is not positive.
unfoldable pub top_contention : List Thread → ℕ → List Contention
unfolding holder_by_lock waiters_by_id sort_by
top_contention threads n =
    let holder = holder_by_lock threads [] in
    let out = sort_by is_more_contended (
      map
        (λ e. record {
          lock = e.1.lock;
          holder = or_empty (lookup e.0 holder);
          waiters = e.1.names;
        })
        (waiters_by_id threads [])) in
    if ltb 0 n && ltb n (length out) then take n out else out

pub record SigGroup : Type 0 where
  pub sig : String
  pub sample : List Frame
  pub state : String
  pub threads : List String

module _ (digest : String → String) where
  -- `top` is 0 for any `topN` that is not positive.
  unfoldable pub group_threads : ℕ → List Thread → Dict String SigGroup → Dict String SigGroup
  unfolding stack_sig
  group_threads top [] m = m
  group_threads top (t ∷ ts) m =
      let sig = stack_sig digest t.frames top in
      let new : SigGroup = record {
        sig = sig;
        sample = if ltb 0 top && leb top (length t.frames) then take top t.frames else t.frames;
        state = t.state;
        threads = [];
      } in
      let g : SigGroup = elim (lookup sig m) [ none ↦ new | some g ↦ g ] in
      group_threads top ts (insert sig (record g { threads = g.threads ++ t.name ∷ [] }) m)

  abbrev pub is_larger : SigGroup → SigGroup → Bool
  is_larger a b =
      if eqb (length a.threads) (length b.threads)
      then string_ltb a.sig b.sig
      else ltb (length b.threads) (length a.threads)

  unfoldable pub sig_groups : List Thread → ℕ → List SigGroup
  unfolding group_threads sort_by
  sig_groups threads top = sort_by is_larger (map (λ e. e.1) (group_threads top threads []))
