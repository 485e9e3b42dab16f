-- ===== src/Runner/Pool.antt =====
-- runner.go: `clientPool`, the connections of a user.
pub mod Around
use utilities.Base.{
  ℕ, zero, suc, ◌+◌, ◌*◌, ◌%◌, ◌^◌, String, Bool, true, false, not, Option, none, some, List, [],
  ◌∷◌, length, get_elem?, set, ◌⊎◌, inl, inr, if◌then◌else◌,
}

-- A slot is its client; `Conn` is a connection, and `dial` dials from the slot at a place.
module _ {Conn : Type 0} (dial : ℕ → String ⊎ Conn) where
  abbrev pub Slots : Type 0
  Slots = List (Option Conn)

  unfoldable pub slot_get : Slots → ℕ → (String ⊎ Conn) × Slots
  slot_get slots i = elim (get_elem? slots i) [
    | none ↦ (dial i, slots)
    | some client ↦ elim client [
      | some c ↦ (inr c, slots)
      | none ↦ elim (dial i) [ inl e ↦ (inl e, slots) | inr c ↦ (inr c, set slots i (some c)) ]
    ]
  ]

  -- The attempts: `start` is the index that the call has taken, `first` the first error.
  unfoldable pub get_loop : ℕ → ℕ → Option String → Slots → (Option String ⊎ (Conn × ℕ)) × Slots
  unfolding slot_get
  get_loop zero at_slot first slots = (inl first, slots)
  get_loop (suc attempts) at_slot first slots =
      let i = at_slot % length slots in
      elim (slot_get slots i).0 [
        | inr c ↦ (inr (c, i), (slot_get slots i).1)
        | inl e ↦
            get_loop attempts (at_slot + 1) (elim first [ none ↦ some e | some f ↦ some f ])
              (slot_get slots i).1
      ]

  -- The client and its slot, or the first error (`none` for an empty pool); the index and the slots.
  unfoldable pub pool_get : Slots → ℕ → (Option String ⊎ (Conn × ℕ)) × ℕ × Slots
  unfolding get_loop
  pool_get slots idx = elim slots [
    | [] ↦ (inl none, idx, [])
    | s ∷ rest ↦ (
      (get_loop (length (s ∷ rest)) idx none (s ∷ rest)).0,
      (idx + 1) % length (s ∷ rest),
      (get_loop (length (s ∷ rest)) idx none (s ∷ rest)).1,
    )
  ]
