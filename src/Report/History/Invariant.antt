-- ===== src/Report/History/Invariant.antt =====
-- What holds of the ledger after any events.
use utilities.Base.{
  ℕ, zero, suc, ◌+◌, ◌≤◌, ◌≡◌, refl, inl, inr, some, List, [], ◌∷◌, ◌++◌, length, length-append,
  length-set, set, arith, string_keyed, All, Any, Option-cases, subst,
}
use utilities.Report.Record.{FileRecord}
use utilities.Report.Store.{Store, add_upload}
use utilities.Report.Bounds.{IsBounded, Below, Below-mono, add_upload-IsBounded}
use utilities.Report.History.{Flight, Ledger, with_store, indices, pick}
use utilities.Report.History.Slots.{IsReleased, Keeps, set-Keeps, append-Keeps}

-- The row with the index `i` is in the file.
abbrev pub IsOnDisk : Flight → ℕ → Type 0
IsOnDisk disk i = Any (λ row. row.0 ≡ i) disk

abbrev pub AreBelow : ℕ → List Flight → Type 0
AreBelow n fs = All (λ f. Below n (indices f)) fs

-- A slot is emptied only when its row is in the file.
pub record Inv (l : Ledger) : Type 0 where
  pub bounded : IsBounded l.store
  pub collected : AreBelow (length l.store.records) l.collected
  pub written : AreBelow (length l.store.records) l.written
  pub landed : All (λ f. All (IsOnDisk l.disk) (indices f)) l.written
  pub kept : (i : ℕ) → IsReleased l.store.records i → IsOnDisk l.disk i

-- A call outside a flush: it empties no slot, and adds `n` of them.
pub record Calm (n : ℕ) (s t : Store) : Type 0 where
  pub bounded : IsBounded t
  pub keeps : Keeps s.records t.records
  pub size : length t.records ≡ length s.records + n

AreBelow-mono : (n n' : ℕ) (fs : List Flight) → n ≤ n' → AreBelow n fs → AreBelow n' fs
AreBelow-mono n n' [] h all = tt
AreBelow-mono n n' (f ∷ fs) h all =
    (Below-mono n n' (indices f) h all.0, AreBelow-mono n n' fs h all.1)

pub Calm-Inv : (l : Ledger) (t : Store) (n : ℕ) → Inv l → Calm n l.store t → Inv (with_store l t)
Calm-Inv l t n v c =
    let grown : length l.store.records ≤ length t.records = omega (arith, c.size) in
    record {
      bounded = c.bounded;
      collected = AreBelow-mono _ _ l.collected grown v.collected;
      written = AreBelow-mono _ _ l.written grown v.written;
      landed = v.landed;
      kept = λ i h. v.kept i (c.keeps i h);
    }

pub Calm-refl : (s : Store) → IsBounded s → Calm 0 s s
Calm-refl s b = record { bounded = b; keeps = λ i h. h; size = omega arith }

pub add_upload-Calm : (s : Store) (r : FileRecord) → IsBounded s → Calm 1 s (add_upload s r)
unfolding add_upload
add_upload-Calm s r b = record {
  bounded = add_upload-IsBounded s r b;
  keeps = append-Keeps s.records r;
  size = length-append {0} s.records (some r ∷ []);
}

pub set_row-Calm :
    (s t : Store) (i : ℕ) (r : FileRecord)
    → t.records ≡ set s.records i (some r)
    → IsBounded t
    → Calm 0 s t
set_row-Calm s t i r slots b = record {
  bounded = b;
  keeps = λ j h. set-Keeps s.records i r j (rw (← slots) h);
  size = rw slots (omega (arith, length-set {0} s.records i (some r)));
}

-- What holds of each flush holds of the one at a place, and of the others.
pub pick-All :
    (P : Flight → Type 0) (place : ℕ) (fs rest : List Flight) (f : Flight)
    → pick place fs ≡ some (f, rest)
    → All P fs
    → P f × All P rest
unfolding pick
pick-All P place [] rest f e all = cc
pick-All P zero (g ∷ fs) rest f e all =
    let (same, left) : (g ≡ f) × (fs ≡ rest) = (cc, cc) in
    (subst P same all.0, subst (All P) left all.1)
pick-All P (suc place) (g ∷ fs) rest f e all = elim (Option-cases (pick place fs)) [
  | inl absent ↦ let wrong = rw (pick, absent) at e in cc
  | inr ((f', others), h) ↦
      let (pf, prest) = pick-All P place fs others f' h all.1 in
      let found = rw (pick, h) at e in
      let (same, left) : (f' ≡ f) × (g ∷ others ≡ rest) = (cc, cc) in
      (subst P same pf, subst (All P) left (all.0, prest))
]

pub All-snoc :
    (P : Flight → Type 0) (fs : List Flight) (f : Flight) → All P fs → P f → All P (fs ++ f ∷ [])
All-snoc P [] f all p = (p, tt)
All-snoc P (g ∷ fs) f all p = (all.0, All-snoc P fs f all.1 p)

pub IsOnDisk-append : (disk more : Flight) (i : ℕ) → IsOnDisk disk i → IsOnDisk (disk ++ more) i
IsOnDisk-append [] more i h = elim h [ ]
IsOnDisk-append (row ∷ disk) more i (inl h) = inl h
IsOnDisk-append (row ∷ disk) more i (inr h) = inr (IsOnDisk-append disk more i h)

pub landed-append :
    (disk more : Flight) (fs : List Flight)
    → All (λ f. All (IsOnDisk disk) (indices f)) fs
    → All (λ f. All (IsOnDisk (disk ++ more)) (indices f)) fs
landed-append disk more [] all = tt
landed-append disk more (f ∷ fs) all = (each (indices f) all.0, landed-append disk more fs all.1)
  where
    each : (is : List ℕ) → All (IsOnDisk disk) is → All (IsOnDisk (disk ++ more)) is
    each [] h = tt
    each (i ∷ is) h = (IsOnDisk-append disk more i h.0, each is h.1)

-- A flight is on the disk behind what was there.
pub flight-IsOnDisk : (disk f : Flight) → All (IsOnDisk (disk ++ f)) (indices f)
flight-IsOnDisk disk f = go f f (λ i h. IsOnDisk-behind disk f i h)
  where
    IsOnDisk-behind : (disk f : Flight) (i : ℕ) → IsOnDisk f i → IsOnDisk (disk ++ f) i
    IsOnDisk-behind [] f i h = h
    IsOnDisk-behind (row ∷ disk) f i h = inr (IsOnDisk-behind disk f i h)

    go :
        (g f : Flight)
        → ((i : ℕ) → IsOnDisk g i → IsOnDisk (disk ++ f) i)
        → All (IsOnDisk (disk ++ f)) (indices g)
    go [] f on = tt
    go ((i, r) ∷ g) f on = (on i (inl refl), go g f (λ j h. on j (inr h)))
