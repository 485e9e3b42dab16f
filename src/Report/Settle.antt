-- ===== src/Report/Settle.antt =====
-- report.go: what a flush that no call interrupts does to the rows in memory and on the disk.
use mathlib.Core.List.{append_assoc}
use utilities.Base.{
  ℕ, zero, suc, ◌+◌, ◌≡◌, refl, sym, ap, subst, ◌∙◌, Bool, true, false, Option, none, some, List,
  [], ◌∷◌, ◌++◌, length, length-append, get_elem?, set, arith, if◌then◌else◌, map,
}
use utilities.Report.Record.{FileRecord}
use utilities.Report.Store.{Store, live_rows, snapshot}
use utilities.Report.Flush.{
  Finality, Batch, take_row, collect, release, commit, Flushed, count_flushed, flush_batch,
  flush_finalized, nothing, Writer,
}
use utilities.Report.History.Collect.{rows-indices}

abbrev pub Slots : Type 0
Slots = List (Option FileRecord)

-- The final rows, and the others, each as `isFinal` leaves it.
unfoldable pub finals : Finality → List FileRecord → List FileRecord
finals f [] = []
finals f (r ∷ rs) = let rest = finals f rs in if (f r).1 then (f r).0 ∷ rest else rest

unfoldable pub others : Finality → List FileRecord → List FileRecord
others f [] = []
others f (r ∷ rs) = let rest = others f rs in if (f r).1 then rest else (f r).0 ∷ rest

-- The slots when the final rows are gone.
swept : Finality → Slots → Slots
swept f [] = []
swept f (none ∷ rs) = none ∷ swept f rs
swept f (some r ∷ rs) = (if (f r).1 then none else some (f r).0) ∷ swept f rs

live_rows-swept : (f : Finality) (rs : Slots) → live_rows (swept f rs) ≡ others f (live_rows rs)
unfolding live_rows swept others
live_rows-swept f [] = refl
live_rows-swept f (none ∷ rs) = live_rows-swept f rs
live_rows-swept f (some r ∷ rs) = ground (arith, live_rows-swept f rs)

pub rows-collect :
    (f : Finality) (i : ℕ) (rs : Slots) → (collect f i rs).rows ≡ finals f (live_rows rs)
unfolding collect live_rows finals
rows-collect f i [] = refl
rows-collect f i (none ∷ rs) = rows-collect f (suc i) rs
rows-collect f i (some r ∷ rs) = ground (arith, rows-collect f (suc i) rs)

-- Every row, as `isFinal` leaves it.
abbrev pub seen : Finality → List FileRecord → List FileRecord
seen f rs = map (λ r. (f r).0) rs

length-snoc :
    (ps : Slots) (slot : Option FileRecord) (i : ℕ)
    → length ps ≡ i
    → length (ps ++ slot ∷ []) ≡ suc i
length-snoc ps slot i e = omega (arith, length-append {0} ps (slot ∷ []))

-- Reading and emptying the slot behind `ps`.
get_behind :
    (ps rs : Slots) (i : ℕ) (r : FileRecord)
    → length ps ≡ i
    → get_elem? (ps ++ some r ∷ rs) i ≡ some (some r)
get_behind [] rs i r e = rw (← e)
get_behind (p ∷ ps) rs zero r e = absurd (omega arith)
get_behind (p ∷ ps) rs (suc i) r e = get_behind ps rs i r (omega arith)

empty_behind :
    (ps rs : Slots) (i : ℕ) (r : FileRecord)
    → length ps ≡ i
    → set (ps ++ some r ∷ rs) i none ≡ (ps ++ none ∷ []) ++ rs
empty_behind [] rs i r e = rw (← e)
empty_behind (p ∷ ps) rs zero r e = absurd (omega arith)
empty_behind (p ∷ ps) rs (suc i) r e = ap (◌∷◌ p) (empty_behind ps rs i r (omega arith))

abbrev Commits : Store → List ℕ → Slots → Type 0
Commits s is slots =
    (t : Store) × (commit s is ≡ some t) × (t.records ≡ slots) × (t.flushed ≡ s.flushed)

records-release :
    (s : Store) (ps rs : Slots) (i : ℕ) (r : FileRecord)
    → length ps ≡ i
    → s.records ≡ ps ++ some r ∷ rs
    → (release s i r).records ≡ (ps ++ none ∷ []) ++ rs
unfolding release
records-release s ps rs i r e h = rw h (empty_behind ps rs i r e)

flushed-release : (s : Store) (i : ℕ) (r : FileRecord) → (release s i r).flushed ≡ s.flushed
unfolding release
flushed-release s i r = refl

commit-cons :
    (s : Store) (ps rs : Slots) (i : ℕ) (r : FileRecord) (is : List ℕ) (slots : Slots)
    → length ps ≡ i
    → s.records ≡ ps ++ some r ∷ rs
    → Commits (release s i r) is slots
    → Commits s (i ∷ is) slots
unfolding commit
commit-cons s ps rs i r is slots e h (t, done, is_slots, kept) =
    let at : get_elem? s.records i ≡ some (some r) = rw h (get_behind ps rs i r e) in
    (t, ground arith, is_slots, kept ∙ flushed-release s i r)

commit-take_row :
    (final : Bool) (ps rest : Slots) (i : ℕ) (r : FileRecord) (b : Batch) (s : Store)
    → length ps ≡ i
    → s.records ≡ ps ++ (take_row final i r b).slots
    → ((slot : Option FileRecord) (t : Store)
        → t.records ≡ (ps ++ slot ∷ []) ++ b.slots
        → Commits t b.indices ((ps ++ slot ∷ []) ++ rest))
    → Commits s (take_row final i r b).indices (ps ++ (if final then none else some r) ∷ rest)
commit-take_row true ps rest i r b s e h next = commit-cons s ps b.slots i r b.indices _ e h (
    subst (Commits (release s i r) b.indices) (append_assoc ps (none ∷ []) rest)
      (next none (release s i r) (records-release s ps b.slots i r e h)))
commit-take_row false ps rest i r b s e h next =
    subst (Commits s b.indices) (append_assoc ps (some r ∷ []) rest)
      (next (some r) s (h ∙ sym (append_assoc ps (some r ∷ []) b.slots)))

-- The second half sweeps just the rows that the first half picked.
commit-collect :
    (f : Finality) (ps rs : Slots) (i : ℕ) (s : Store)
    → length ps ≡ i
    → s.records ≡ ps ++ (collect f i rs).slots
    → Commits s (collect f i rs).indices (ps ++ swept f rs)
unfolding collect swept
commit-collect f ps [] i s e h = (s, unfold commit in refl, h, refl)
commit-collect f ps (none ∷ rs) i s e h =
    subst (Commits s (collect f (suc i) rs).indices) (append_assoc ps (none ∷ []) (swept f rs)) (
      commit-collect f (ps ++ none ∷ []) rs (suc i) s (length-snoc ps none i e)
        (h ∙ sym (append_assoc ps (none ∷ []) (collect f (suc i) rs).slots)))
commit-collect f ps (some r ∷ rs) i s e h =
    commit-take_row (f r).1 ps (swept f rs) i (f r).0 (collect f (suc i) rs) s e h
      (λ slot t. commit-collect f (ps ++ slot ∷ []) rs (suc i) t (length-snoc ps slot i e))

commit_empty : (s : Store) (is : List ℕ) → length is ≡ 0 → commit s is ≡ some s
unfolding commit
commit_empty s [] h = refl
commit_empty s (i ∷ is) h = absurd (omega arith)

abbrev with_slots : Store → Slots → Store
with_slots s slots = record s { records = slots }

-- A batch that reaches the disk is committed and counted; an empty one changes nothing more.
flush_batch_written :
    (s t : Store) (write : Writer) (slots : Slots) (rows : List FileRecord) (indices : List ℕ)
    → commit (with_slots s slots) indices ≡ some t
    → length rows ≡ length indices
    → write rows ≡ none
    → flush_batch s write (record { slots = slots; rows = rows; indices = indices })
      ≡ some (record { store = count_flushed (length rows) t; rows = rows; failed = false })
unfolding flush_batch
flush_batch_written s t write slots [] is e len ok =
    ground (arith, commit_empty (with_slots s slots) is (sym len))
flush_batch_written s t write slots (r ∷ rs) is e len ok = rw (flush_batch, ok, e) refl

flush_on :
    (s : Store) (f : Finality) (write : Writer)
    → s.has_stream ≡ true
    → flush_finalized s f write ≡ flush_batch s write (collect f 0 s.records)
unfolding flush_finalized
flush_on s f write on =
    ap (λ b. if b then flush_batch s write (collect f 0 s.records) else some (nothing s)) on

-- A flush whose rows reach the disk writes the final rows in the order of the ledger, as `isFinal`
-- leaves them, keeps exactly the others in memory, and counts each written row once.
pub flush_finalized-Settles :
    (s : Store) (f : Finality) (write : Writer)
    → s.has_stream ≡ true
    → write (finals f (snapshot s)) ≡ none
    → (t : Flushed) × (flush_finalized s f write ≡ some t)
      × (t.rows ≡ finals f (snapshot s))
      × (snapshot t.store ≡ others f (snapshot s))
      × (t.store.flushed ≡ s.flushed + length t.rows)
unfolding flush_finalized snapshot
flush_finalized-Settles s f write on ok =
    let b = collect f 0 s.records in
    let (t, done, slots, kept) = commit-collect f [] s.records 0 (with_slots s b.slots) refl refl in
    let picked = rows-collect f 0 s.records in
    (
      record { store = count_flushed (length b.rows) t; rows = b.rows; failed = false },
      flush_on s f write on
          ∙ flush_batch_written s t write b.slots b.rows b.indices done (rows-indices f 0 s.records)
              (rw picked ok),
      picked,
      ap live_rows slots ∙ live_rows-swept f s.records,
      rw kept,
    )
