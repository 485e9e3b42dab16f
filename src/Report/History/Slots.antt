-- ===== src/Report/History/Slots.antt =====
-- Slots of the ledger, and which of them are empty.
use utilities.Base.{
  ℕ, zero, suc, ◌≡◌, refl, ap, ◌⊎◌, inl, inr, Option, none, some, List, [], ◌∷◌, ◌++◌, get_elem?,
  set,
}
use utilities.Report.Record.{FileRecord}

abbrev pub Slots : Type 0
Slots = List (Option FileRecord)

-- The row of slot `i` was released.
abbrev pub IsReleased : Slots → ℕ → Type 0
IsReleased rs i = get_elem? rs i ≡ some none

-- A change of the slots that releases none.
abbrev pub Keeps : Slots → Slots → Type 0
Keeps rs rs' = (i : ℕ) → IsReleased rs' i → IsReleased rs i

pub set-Keeps : (rs : Slots) (i : ℕ) (r : FileRecord) → Keeps rs (set rs i (some r))
set-Keeps [] i r j h = h
set-Keeps (x ∷ rs) zero r zero h = cc
set-Keeps (x ∷ rs) zero r (suc j) h = h
set-Keeps (x ∷ rs) (suc i) r zero h = h
set-Keeps (x ∷ rs) (suc i) r (suc j) h = set-Keeps rs i r j h

pub append-Keeps : (rs : Slots) (r : FileRecord) → Keeps rs (rs ++ some r ∷ [])
append-Keeps [] r zero h = cc
append-Keeps [] r (suc j) h = h
append-Keeps (x ∷ rs) r zero h = h
append-Keeps (x ∷ rs) r (suc j) h = append-Keeps rs r j h

-- Emptying slot `i` releases no other.
pub set-IsReleased :
    (rs : Slots) (i j : ℕ) → IsReleased (set rs i none) j → IsReleased rs j ⊎ (j ≡ i)
set-IsReleased [] i j h = inl h
set-IsReleased (x ∷ rs) zero zero h = inr refl
set-IsReleased (x ∷ rs) zero (suc j) h = inl h
set-IsReleased (x ∷ rs) (suc i) zero h = inl h
set-IsReleased (x ∷ rs) (suc i) (suc j) h = elim (set-IsReleased rs i j h) [
  | inl released ↦ inl released
  | inr same ↦ inr (ap suc same)
]
