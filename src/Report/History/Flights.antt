-- ===== src/Report/History/Flights.antt =====
-- report.go: the three parts of a flush, on a ledger where the invariant holds.
use utilities.Base.{
  ℕ, ◌≡◌, ◌∙◌, refl, subst, inl, inr, Option, none, some, Option-cases, List, [], ◌∷◌, length, take,
  All, Any, arith,
}
use utilities.Report.Record.{FileRecord}
use utilities.Report.Flush.{Finality, collect, commit, count_flushed}
use utilities.Report.Bounds.{Below, slots-IsBounded}
use utilities.Report.History.{
  Flight, Ledger, with_store, indices, with_indices, pick, hold, begin_flush, land, write_flush,
  settle, end_flush,
}
use utilities.Report.History.Collect.{
  collect-Below, collect-Keeps, length-collect, commit-Releases, Commits,
}
use utilities.Report.History.Invariant.{
  IsOnDisk, AreBelow, Inv, pick-All, All-snoc, IsOnDisk-append, landed-append, flight-IsOnDisk,
}

with_indices-Below :
    (n : ℕ) (is : List ℕ) (rs : List FileRecord)
    → Below n is
    → Below n (indices (with_indices is rs))
with_indices-Below n [] rs b = tt
with_indices-Below n (i ∷ is) [] b = tt
with_indices-Below n (i ∷ is) (r ∷ rs) b = (b.0, with_indices-Below n is rs b.1)

-- `isFinal` has changed the rows.
collected-Inv :
    (l : Ledger) (f : Finality)
    → Inv l
    → Inv (with_store l (record l.store { records = (collect f 0 l.store.records).slots }))
collected-Inv l f v =
    let same = length-collect f 0 l.store.records in
    record {
      bounded = slots-IsBounded l.store _ same v.bounded;
      collected = rw same v.collected;
      written = rw same v.written;
      landed = v.landed;
      kept = λ i h. v.kept i (collect-Keeps f 0 l.store.records i h);
    }

abbrev pub SameSize : Ledger → Ledger → Type 0
SameSize l t = length t.store.records ≡ length l.store.records

hold-Inv :
    (l : Ledger) (f : Flight)
    → Inv l
    → Below (length l.store.records) (indices f)
    → Inv (hold l f) × SameSize l (hold l f)
hold-Inv l [] v below = (v, refl)
hold-Inv l (row ∷ rows) v below = (
  record {
    bounded = v.bounded;
    collected = All-snoc _ l.collected (row ∷ rows) v.collected below;
    written = v.written;
    landed = v.landed;
    kept = v.kept;
  },
  refl,
)

pub begin_flush-Inv :
    (l : Ledger) (f : Finality) → Inv l → Inv (begin_flush l f) × SameSize l (begin_flush l f)
unfolding begin_flush
begin_flush-Inv l f v =
    let b = collect f 0 l.store.records in
    let same = length-collect f 0 l.store.records in
    let (w, size) = hold-Inv _ (with_indices b.indices b.rows) (collected-Inv l f v) (
      with_indices-Below _ b.indices b.rows
        (collect-Below f _ 0 l.store.records (omega (arith, same)))) in
    (w, size ∙ same)

land-Inv :
    (l : Ledger) (f : Flight) (fs : List Flight) (outcome : Option ℕ)
    → Inv l
    → Below (length l.store.records) (indices f)
    → All (λ g. Below (length l.store.records) (indices g)) fs
    → Inv (land l f fs outcome)
land-Inv l f fs none v below others = record {
  bounded = v.bounded;
  collected = others;
  written = All-snoc _ l.written f v.written below;
  landed =
      All-snoc _ l.written f (landed-append l.disk f l.written v.landed) (flight-IsOnDisk l.disk f);
  kept = λ i h. IsOnDisk-append l.disk f i (v.kept i h);
}
land-Inv l f fs (some n) v below others = record {
  bounded = v.bounded;
  collected = others;
  written = v.written;
  landed = landed-append l.disk (take n f) l.written v.landed;
  kept = λ i h. IsOnDisk-append l.disk (take n f) i (v.kept i h);
}

land-SameSize :
    (l : Ledger) (f : Flight) (fs : List Flight) (outcome : Option ℕ)
    → SameSize l (land l f fs outcome)
land-SameSize l f fs none = refl
land-SameSize l f fs (some n) = refl

pub write_flush-Inv :
    (l : Ledger) (place : ℕ) (outcome : Option ℕ)
    → Inv l
    → Inv (write_flush l place outcome) × SameSize l (write_flush l place outcome)
unfolding write_flush
write_flush-Inv l place outcome v = elim (Option-cases (pick place l.collected)) [
  | inl absent ↦ rw (write_flush, absent) (v, refl)
  | inr ((f, fs), found) ↦
      let (below, others) = pick-All _ place l.collected fs f found v.collected in
      rw (write_flush, found) (land-Inv l f fs outcome v below others, land-SameSize l f fs outcome)
]

-- An outcome that returns a ledger with the invariant, and `n` slots.
abbrev pub Returns : ℕ → Option Ledger → Type 0
Returns n o = (l : Ledger) × (o ≡ some l) × Inv l × (length l.store.records ≡ n)

-- What a released index says of a flight that is on the disk.
IsOnDisk-indices :
    (disk : Flight) (is : List ℕ) (j : ℕ)
    → All (IsOnDisk disk) is
    → Any (λ i. i ≡ j) is
    → IsOnDisk disk j
IsOnDisk-indices disk [] j all h = elim h [ ]
IsOnDisk-indices disk (i ∷ is) j all (inl e) = subst (IsOnDisk disk) e all.0
IsOnDisk-indices disk (i ∷ is) j all (inr h) = IsOnDisk-indices disk is j all.1 h

settle-Returns :
    (l : Ledger) (f : Flight) (fs : List Flight)
    → Inv l
    → Commits l.store (indices f)
    → AreBelow (length l.store.records) fs
    → All (IsOnDisk l.disk) (indices f)
    → All (λ g. All (IsOnDisk l.disk) (indices g)) fs
    → Returns (length l.store.records) (settle l f fs (commit l.store (indices f)))
settle-Returns l f fs v (t, done, b, size, released) below here others = (
  record l { store = count_flushed (length (indices f)) t; written = fs },
  rw done refl,
  record {
    bounded = record {
      keys = b.keys;
      basenames = b.basenames;
      filename_ids = b.filename_ids;
      minutes = b.minutes;
      tail = b.tail;
    };
    collected = rw size v.collected;
    written = rw size below;
    landed = others;
    kept = λ i h. elim (released i h) [
      | inl before ↦ v.kept i before
      | inr at ↦ IsOnDisk-indices l.disk (indices f) i here at
    ];
  },
  size,
)

pub end_flush-Returns :
    (l : Ledger) (place : ℕ) → Inv l → Returns (length l.store.records) (end_flush l place)
unfolding end_flush
end_flush-Returns l place v = elim (Option-cases (pick place l.written)) [
  | inl absent ↦ (l, rw (end_flush, absent) refl, v, refl)
  | inr ((f, fs), found) ↦
      let (below, still) = pick-All _ place l.written fs f found v.written in
      let (here, others) = pick-All _ place l.written fs f found v.landed in
      rw (end_flush, found)
        (settle-Returns l f fs v (commit-Releases l.store (indices f) v.bounded below) still here
          others)
]
