-- ===== src/Cluster/Split.antt =====
-- cluster.go: `splitConfig`. The decoder of the configuration, its printer and Go's conversion of a
-- number to `int` are parameters.
use native.Mathlib.Nat.{mul-div-le, lt-div-mul-add, div-eq_of_lt, mul_comm, mul-zero}
use utilities.Base.{
  ℕ, suc, ◌+◌, ◌-◌, ◌*◌, ◌/◌, ◌≤◌, ◌<◌, ◌≡◌, refl, inl, inr, String, Option, none, some, ◌==◌,
  string_keyed, Dict, lookup, insert, lookup-insert, ℤ, pos, negsuc, ltb_ℤ, ltb, eqb, if◌then◌else◌,
  arith, Bool-cases,
}

-- A value of the decoded configuration: a number, an `int` that the split has put there, or any other
-- value, by its text.
pub data Json (Number : Type 0) : Type 0 where
  number : Number → Json Number
  int : ℤ → Json Number
  other : String → Json Number

-- Go's `/` on `int`, towards 0.
abbrev pub quotient : ℤ → ℕ → ℤ
quotient (pos k) n = pos (k / n)
quotient (negsuc k) n = if eqb (suc k / n) 0 then pos 0 else negsuc (suc k / n - 1)

abbrev pub per_worker : ℤ → ℕ → ℤ
per_worker t n = if ltb_ℤ (quotient t n) (pos 1) then pos 1 else quotient t n

module _ {Number : Type 0} (int_of : Number → ℤ) where
  unfoldable pub split_fields : Dict String (Json Number) → ℕ → Dict String (Json Number)
  split_fields m n = elim (lookup "files_per_minute" m) [
    | none ↦ m
    | some v ↦ elim v [
      | Json.number t ↦ insert "files_per_minute" (Json.int (per_worker (int_of t) n)) m
      | Json.int t ↦ m
      | Json.other text ↦ m
    ]
  ]

  unfoldable pub split_config :
      (parse : String → Option (Dict String (Json Number)))
      (print : Dict String (Json Number) → String)
      → String
      → ℕ
      → Option String
  unfolding split_fields
  split_config parse print raw n =
      if eqb n 0
      then none
      else elim (parse raw) [ none ↦ none | some m ↦ some (print (split_fields m n)) ]

quotient-bounds : (f n : ℕ) → 0 < n → (n * (f / n) ≤ f) × (f < n * (f / n) + n)
quotient-bounds f n some_workers =
    let above = lt-div-mul-add {a = f} some_workers in
    (mul-div-le f n, rw (mul_comm n (f / n)) above)

per_worker-bounds :
    (f n : ℕ)
    → 0 < n
    → (q : ℕ) × (per_worker (pos f) n ≡ pos q)
      × (1 ≤ q)
      × (n ≤ f → (n * q ≤ f) × (f < n * q + n))
      × (f < n → q ≡ 1)
per_worker-bounds f n some_workers =
    let (below, above) = quotient-bounds f n some_workers in
    elim (Bool-cases (ltb (f / n + 0) 1)) [
      | inl small ↦
          let none_each : f / n ≡ 0 = ground arith in
          let few : f < 0 + n = rw (none_each, mul-zero n) at above in
          (1, rw small refl, omega arith, λ many. absurd (omega arith), λ less. refl)
      | inr some_each ↦ (
        f / n,
        rw some_each refl,
        ground arith,
        λ many. (below, above),
        λ less. absurd (let zero_each = div-eq_of_lt less in ground arith),
      )
    ]

-- A share of `f` files a minute, for each of `n` workers.
abbrev pub IsShare : ℕ → ℕ → ℕ → Type 0
IsShare f n q = (1 ≤ q) × (n ≤ f → (n * q ≤ f) × (f < n * q + n)) × (f < n → q ≡ 1)

-- The configuration that `splitConfig` makes for one of `n` workers, of a number of files a minute that is
-- not negative. Together the workers ask for at most the files of the run, and for less than `n` fewer;
-- where there are fewer files than workers, each worker gets one. Every other field is the same.
pub split_fields-IsShare :
    {Number : Type 0} (int_of : Number → ℤ) (m : Dict String (Json Number)) (t : Number) (f n : ℕ)
    → 0 < n
    → lookup "files_per_minute" m ≡ some (Json.number t)
    → int_of t ≡ pos f
    → (q : ℕ) × IsShare f n q
      × ((field : String)
          → lookup field (split_fields int_of m n)
            ≡ (if "files_per_minute" == field then some (Json.int (pos q)) else lookup field m))
unfolding split_fields
split_fields-IsShare int_of m t f n some_workers h whole =
    let (q, share, some_each, many, few) = per_worker-bounds f n some_workers in
    let rate : per_worker (int_of t) n ≡ pos q = rw whole share in
    (
      q,
      (some_each, many, few),
      λ field.
          rw (h, split_fields, rate) (lookup-insert "files_per_minute" field (Json.int (pos q)) m),
    )
