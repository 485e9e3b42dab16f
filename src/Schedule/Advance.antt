-- ===== src/Schedule/Advance.antt =====
-- schedule.go: the next instant of a repeating schedule.
use utilities.Base.{
  ℕ, zero, suc, ◌+◌, ◌*◌, ◌≤◌, ◌<◌, ◌≡◌, refl, ◌⊎◌, inl, inr, Bool-cases, ltb, arith,
}
use utilities.Schedule.Sweep.{advance}

-- The first of `next`, `next + step`, … that is later than `now`.
abbrev pub IsNext : ℕ → ℕ → ℕ → ℕ → Type 0
IsNext now step next r =
    (now < r) × (k : ℕ) × (r ≡ next + k * step) × ((r ≡ next) ⊎ (r ≤ now + step))

advance-later :
    (now step next r : ℕ) → next ≤ now → IsNext now step (next + step) r → IsNext now step next r
advance-later now step next r h (late, k, e, first) =
    (late, k + 1, grind (arith, e), elim first [ inl same ↦ inr (omega arith) | inr low ↦ inr low ])

advance-enough :
    (fuel now step next : ℕ)
    → 0 < step
    → now < next + fuel
    → IsNext now step next (advance fuel now step next)
unfolding advance
advance-enough zero now step next h enough = (omega arith, 0, omega arith, inl refl)
advance-enough (suc fuel) now step next h enough = elim (Bool-cases (ltb now next)) [
  | inl e ↦ rw (e, advance) (ground (arith), 0, omega arith, inl refl)
  | inr e ↦
      rw (e, advance)
        (advance-later now step next _ (ground arith)
          (advance-enough fuel now step (next + step) h (omega arith)))
]

-- For a positive step the fuel of the sweep is enough: the loop ends with the first instant after now among those that
-- are a positive number of steps after the schedule's own.
pub advance-IsNext :
    (now step run_at : ℕ)
    → 0 < step
    → IsNext now step (run_at + step) (advance (now + 1) now step (run_at + step))
advance-IsNext now step run_at h = advance-enough (now + 1) now step (run_at + step) h (omega arith)
