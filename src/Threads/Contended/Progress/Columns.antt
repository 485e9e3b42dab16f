-- ===== src/Threads/Contended/Progress/Columns.antt =====
-- progression.go: what `LockProgressions` collects of a lock is what each dump says of it.
use mathlib.Core.List.{append_assoc}
use utilities.Base.{
  ℕ, zero, suc, ◌+◌, ◌≡◌, refl, sym, ap, subst, ◌∙◌, String, Bool, true, false, ◌||◌, Option, none,
  some, List, [], ◌∷◌, ◌++◌, ◌==◌, string_keyed, same_refl, Dict, lookup, lookup-insert, insert,
  insert-IsUnique, IsUnique, map, length, length-append, set, replicate, if◌then◌else◌, arith,
  Bool-cases, inl, inr, Option-cases,
}
use utilities.Threads.Dump.{Thread}
use utilities.Threads.Waits.{holder_by_lock}
use utilities.Threads.Deadlocks.{mem}
use utilities.Threads.Contended.{or_zero, or_empty}
use utilities.Threads.Contended.Progress.{
  all_held_classes, count_waiters, keys_of, Slot, merge_lock, merge_locks, merge_dumps,
}

-- The holder of a lock in a dump, or "".
abbrev pub holder_in : String → List Thread → String
holder_in id dump = or_empty (lookup id (holder_by_lock dump []))

abbrev counts_in : List Thread → Dict String ℕ
counts_in dump = (count_waiters dump ([], all_held_classes dump [])).0

-- The number of threads that wait for a lock in a dump.
abbrev pub waiters_in : String → List Thread → ℕ
waiters_in id dump = or_zero (lookup id (counts_in dump))

abbrev pub holders_at : ℕ → Option Slot → List String
holders_at n none = replicate n ""
holders_at n (some sl) = sl.holders

abbrev pub waiters_at : ℕ → Option Slot → List ℕ
waiters_at n none = replicate n 0
waiters_at n (some sl) = sl.waiters

module _ {A : Type 0} where
  set_twice : (xs : List A) (i : ℕ) (v : A) → set (set xs i v) i v ≡ set xs i v
  set_twice [] i v = refl
  set_twice (x ∷ xs) zero v = refl
  set_twice (x ∷ xs) (suc i) v = ap (◌∷◌ x) (set_twice xs i v)

  set_behind :
      (ps rest : List A) (i : ℕ) (x v : A)
      → length ps ≡ i
      → set (ps ++ x ∷ rest) i v ≡ (ps ++ v ∷ []) ++ rest
  set_behind [] rest i x v e = rw (← e)
  set_behind (p ∷ ps) rest zero x v e = absurd (omega arith)
  set_behind (p ∷ ps) rest (suc i) x v e = ap (◌∷◌ p) (set_behind ps rest i x v (omega arith))

  -- A place that is written only if it has another value than the blank.
  filled :
      (ps rest : List A) (i : ℕ) (blank v : A) (written : Bool)
      → length ps ≡ i
      → (written ≡ false → v ≡ blank)
      → (if written then set (ps ++ blank ∷ rest) i v else ps ++ blank ∷ rest)
        ≡ (ps ++ v ∷ []) ++ rest
  filled ps rest i blank v true e same = set_behind ps rest i blank v e
  filled ps rest i blank v false e same =
      ap (λ x. ps ++ x ∷ rest) (sym (same refl)) ∙ sym (append_assoc ps (v ∷ []) rest)

module _ {A : Type 0} where
  written_twice :
      (b m : Bool) (xs ys zs : List A) (i : ℕ) (v : A)
      → ys ≡ (if b then set xs i v else xs)
      → zs ≡ (if m then set ys i v else ys)
      → zs ≡ (if b || m then set xs i v else xs)
  written_twice true true xs ys zs i v h k = k ∙ ap (λ l. set l i v) h ∙ set_twice xs i v
  written_twice true false xs ys zs i v h k = k ∙ h
  written_twice false true xs ys zs i v h k = k ∙ ap (λ l. set l i v) h
  written_twice false false xs ys zs i v h k = k ∙ h

lookup-absent :
    {V : Type 0} (id : String) (m : Dict String V) (ks : List String)
    → mem id (keys_of m ++ ks) ≡ false
    → (lookup id m ≡ none) × (mem id ks ≡ false)
unfolding lookup
lookup-absent id [] ks h = (refl, h)
lookup-absent id ((k, v) ∷ m) ks h = elim (Bool-cases (k == id)) [
  | inl e ↦ let wrong = rw e at h in cc
  | inr e ↦ rw e (lookup-absent id m ks (rw e at h))
]

lookup_of_mem :
    {V : Type 0} (id : String) (m : Dict String V) → mem id (keys_of m) ≡ false → lookup id m ≡ none
unfolding lookup
lookup_of_mem id [] h = refl
lookup_of_mem id ((k, v) ∷ m) h = elim (Bool-cases (k == id)) [
  | inl e ↦ let wrong = rw e at h in cc
  | inr e ↦ rw e (lookup_of_mem id m (rw e at h))
]

lookup-insert_self :
    {V : Type 0} (id : String) (v : V) (m : Dict String V) → lookup id (insert id v m) ≡ some v
lookup-insert_self id v m = lookup-insert id id v m ∙ rw (same_refl id) refl

lookup-insert_other :
    {V : Type 0} (k id : String) (v : V) (m : Dict String V)
    → (k == id) ≡ false
    → lookup id (insert k v m) ≡ lookup id m
lookup-insert_other k id v m other = lookup-insert k id v m ∙ rw other refl

module _ (n di : ℕ) (holder : Dict String String) (counts : Dict String ℕ)
    (classes : Dict String String) (id : String) where
  abbrev AtHolders : (mentioned : Bool) → Dict String Slot → Dict String Slot → Type 0
  AtHolders mentioned state after =
      (holders_at n (lookup id after) ≡ (
        if mentioned
        then set (holders_at n (lookup id state)) di (or_empty (lookup id holder))
        else holders_at n (lookup id state)))
      × (waiters_at n (lookup id after) ≡ (
          if mentioned
          then set (waiters_at n (lookup id state)) di (or_zero (lookup id counts))
          else waiters_at n (lookup id state)))

  merge_lock_self :
      (state : Dict String Slot)
      → AtHolders true state (merge_lock n di holder counts classes id state)
  merge_lock_self state = elim (Option-cases (lookup id state)) [
    | inl new ↦ rw (lookup-insert_self id _ state, new) (refl, refl)
    | inr (sl, old) ↦ rw (lookup-insert_self id _ state, old) (refl, refl)
  ]

  merge_lock-At :
      (k : String) (state : Dict String Slot)
      → AtHolders (k == id) state (merge_lock n di holder counts classes k state)
  merge_lock-At k state = elim (Bool-cases (k == id)) [
    | inl same ↦ rw same (
        subst (λ j. AtHolders true state (merge_lock n di holder counts classes j state))
          (sym ((string_keyed.same_iff k id).0 same)) (merge_lock_self state))
    | inr other ↦
        let kept = lookup-insert_other k id _ state other in
        rw other (ap (holders_at n) kept, ap (waiters_at n) kept)
  ]

  merge_locks-At :
      (ks : List String) (state : Dict String Slot)
      → AtHolders (mem id ks) state (merge_locks n di holder counts classes ks state)
  unfolding merge_locks
  merge_locks-At [] state = (refl, refl)
  merge_locks-At (k ∷ ks) state =
      let next = merge_lock n di holder counts classes k state in
      let (h0, w0) = merge_lock-At k state in
      let (h1, w1) = merge_locks-At ks next in
      (
        written_twice (k == id) (mem id ks) _ _ _ di (or_empty (lookup id holder)) h0 h1,
        written_twice (k == id) (mem id ks) _ _ _ di (or_zero (lookup id counts)) w0 w1,
      )

-- A dump fills the place `di` of every lock's columns, with "" and 0 where it has nothing of the lock.
merge_dump-At :
    (n di : ℕ) (holder : Dict String String) (counts : Dict String ℕ) (classes : Dict String String)
    (id : String) (state : Dict String Slot) (hs : List String) (ws : List ℕ) (k : ℕ)
    → length hs ≡ di
    → length ws ≡ di
    → holders_at n (lookup id state) ≡ hs ++ "" ∷ replicate k ""
    → waiters_at n (lookup id state) ≡ ws ++ 0 ∷ replicate k 0
    → let after = merge_locks n di holder counts classes (keys_of holder ++ keys_of counts) state in
      (holders_at n (lookup id after) ≡ (hs ++ or_empty (lookup id holder) ∷ []) ++ replicate k "")
      × (waiters_at n (lookup id after) ≡ (ws ++ or_zero (lookup id counts) ∷ []) ++ replicate k 0)
merge_dump-At n di holder counts classes id state hs ws k eh ew h w =
    let ks = keys_of holder ++ keys_of counts in
    let (h1, w1) = merge_locks-At n di holder counts classes id ks state in
    let absent = λ (e : mem id ks ≡ false). lookup-absent id holder (keys_of counts) e in
    (
      h1
          ∙ ap (λ x. if mem id ks then set x di (or_empty (lookup id holder)) else x) h
          ∙ filled hs (replicate k "") di "" (or_empty (lookup id holder)) (mem id ks) eh
              (λ e. ap or_empty (absent e).0),
      w1
          ∙ ap (λ x. if mem id ks then set x di (or_zero (lookup id counts)) else x) w
          ∙ filled ws (replicate k 0) di 0 (or_zero (lookup id counts)) (mem id ks) ew
              (λ e. ap or_zero (lookup_of_mem id counts (absent e).1)),
    )

length-snoc :
    {A : Type 0} (xs : List A) (x : A) (i : ℕ) → length xs ≡ i → length (xs ++ x ∷ []) ≡ i + 1
length-snoc xs x i e = omega (arith, length-append {0} xs (x ∷ []))

merge_dumps-At :
    (n di : ℕ) (dumps : List (List Thread)) (id : String) (state : Dict String Slot)
    (hs : List String) (ws : List ℕ)
    → length hs ≡ di
    → length ws ≡ di
    → holders_at n (lookup id state) ≡ hs ++ replicate (length dumps) ""
    → waiters_at n (lookup id state) ≡ ws ++ replicate (length dumps) 0
    → (holders_at n (lookup id (merge_dumps n di dumps state)) ≡ hs ++ map (holder_in id) dumps)
      × (waiters_at n (lookup id (merge_dumps n di dumps state)) ≡ ws ++ map (waiters_in id) dumps)
unfolding merge_dumps
merge_dumps-At n di [] id state hs ws eh ew h w = (h, w)
merge_dumps-At n di (d ∷ ds) id state hs ws eh ew h w =
    let holder = holder_by_lock d [] in
    let counted = count_waiters d ([], all_held_classes d []) in
    let after =
      merge_locks n di holder counted.0 counted.1 (keys_of holder ++ keys_of counted.0) state in
    let (h1, w1) =
      merge_dump-At n di holder counted.0 counted.1 id state hs ws (length ds) eh ew h w in
    let (h2, w2) =
      merge_dumps-At n (di + 1) ds id after (hs ++ holder_in id d ∷ []) (ws ++ waiters_in id d ∷ [])
        (length-snoc hs (holder_in id d) di eh) (length-snoc ws (waiters_in id d) di ew) h1 w1 in
    (
      h2 ∙ append_assoc hs (holder_in id d ∷ []) (map (holder_in id) ds),
      w2 ∙ append_assoc ws (waiters_in id d ∷ []) (map (waiters_in id) ds),
    )

-- After all dumps the columns of any lock are what the dumps say of it, one by one.
pub merge_dumps-columns :
    (dumps : List (List Thread)) (id : String)
    → (holders_at (length dumps) (lookup id (merge_dumps (length dumps) 0 dumps []))
        ≡ map (holder_in id) dumps)
      × (waiters_at (length dumps) (lookup id (merge_dumps (length dumps) 0 dumps []))
          ≡ map (waiters_in id) dumps)
unfolding lookup
merge_dumps-columns dumps id = merge_dumps-At (length dumps) 0 dumps id [] [] [] refl refl refl refl

merge_locks-IsUnique :
    (n di : ℕ) (holder : Dict String String) (counts : Dict String ℕ) (classes : Dict String String)
    (ks : List String) (state : Dict String Slot)
    → IsUnique state
    → IsUnique (merge_locks n di holder counts classes ks state)
unfolding merge_locks
merge_locks-IsUnique n di holder counts classes [] state u = u
merge_locks-IsUnique n di holder counts classes (k ∷ ks) state u =
    merge_locks-IsUnique n di holder counts classes ks _ (insert-IsUnique k _ state u)

pub merge_dumps-IsUnique :
    (n di : ℕ) (dumps : List (List Thread)) (state : Dict String Slot)
    → IsUnique state
    → IsUnique (merge_dumps n di dumps state)
unfolding merge_dumps
merge_dumps-IsUnique n di [] state u = u
merge_dumps-IsUnique n di (d ∷ ds) state u =
    let holder = holder_by_lock d [] in
    let counted = count_waiters d ([], all_held_classes d []) in
    merge_dumps-IsUnique n (di + 1) ds _ (
      merge_locks-IsUnique n di holder counted.0 counted.1 (keys_of holder ++ keys_of counted.0)
        state u)
