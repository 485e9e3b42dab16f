-- ===== src/Latency/Buckets.antt =====
-- histogram.go: where a duration is counted.
use utilities.Base.{
  ℕ, ◌+◌, ◌-◌, ◌*◌, ◌/◌, ◌%◌, ◌≤◌, ◌<◌, ◌≡◌, refl, false, ltb, leb, if◌then◌else◌, arith, ◌⊎◌, inl,
  inr,
}
use utilities.Latency.Histogram.{pow10, decade, step_of, bucket_index, bucket_bounds_ns}

abbrev IsDecade : ℕ → ℕ → Type 0
IsDecade ns d =
    ((d ≡ 0) × (1000 ≤ ns) × (ns < 10_000))
    ⊎ ((d ≡ 1) × (10_000 ≤ ns) × (ns < 100_000))
    ⊎ ((d ≡ 2) × (100_000 ≤ ns) × (ns < 1_000_000))
    ⊎ ((d ≡ 3) × (1_000_000 ≤ ns) × (ns < 10_000_000))
    ⊎ ((d ≡ 4) × (10_000_000 ≤ ns) × (ns < 100_000_000))
    ⊎ ((d ≡ 5) × (100_000_000 ≤ ns) × (ns < 1_000_000_000))
    ⊎ ((d ≡ 6) × (1_000_000_000 ≤ ns) × (ns < 10_000_000_000))

decade-IsDecade : (ns : ℕ) → 1000 ≤ ns → ns < 10_000_000_000 → IsDecade ns (decade 6 ns 0 10_000)
unfolding decade
decade-IsDecade ns low high = ground arith

-- The position of a duration in its decade.
abbrev sub_at : ℕ → ℕ → ℕ
sub_at ns d =
    let sub = (ns - 1000 * pow10 d) / step_of (1000 * pow10 d) in if leb 32 sub then 31 else sub

bucket_index-decade :
    (ns d : ℕ)
    → 1000 ≤ ns
    → ns < 10_000_000_000
    → decade 6 ns 0 10_000 ≡ d
    → bucket_index ns ≡ d * 32 + sub_at ns d
unfolding bucket_index
bucket_index-decade ns d low high e =
    let big : ltb ns 1000 ≡ false = ground arith in
    let small : leb 10_000_000_000 ns ≡ false = ground arith in
    rw (big, bucket_index, small, e) refl

abbrev pub Contains : ℕ → ℕ → Type 0
Contains idx ns =
    (idx < 224)
    × ((bucket_bounds_ns idx).0 ≤ ns)
    × ((ns < (bucket_bounds_ns idx).1) ⊎ (ns < 100_000))

Contains-at :
    (ns d sub low step : ℕ)
    → 1000 * pow10 d ≡ low
    → (low * 10 - low) / 32 ≡ step
    → d < 7
    → sub < 32
    → low + sub * step ≤ ns
    → (ns < low + (sub + 1) * step) ⊎ (ns < 100_000)
    → Contains (d * 32 + sub) ns
unfolding bucket_bounds_ns
Contains-at ns d sub low step e f small sub_small lo hi =
    let place : (d * 32 + sub) / 32 ≡ d = omega arith in
    let rest : (d * 32 + sub) % 32 ≡ sub = omega arith in
    let inside : leb 224 (d * 32 + sub) ≡ false = ground arith in
    let bounds : bucket_bounds_ns (d * 32 + sub) ≡ (low + sub * step, low + (sub + 1) * step) =
      rw (inside, bucket_bounds_ns, place, rest, e, f) refl in
    (omega arith, rw bounds lo, rw bounds hi)

in_decade_0 :
    (ns : ℕ) → 1000 ≤ ns → ns < 10000 → decade 6 ns 0 10_000 ≡ 0 → Contains (bucket_index ns) ns
in_decade_0 ns lo hi e = rw (bucket_index-decade ns 0 (omega arith) (omega arith) e) (
    Contains-at ns 0 (sub_at ns 0) 1000 281 refl refl (omega arith) (ground arith) (ground arith)
      (ground arith))

in_decade_1 :
    (ns : ℕ) → 10000 ≤ ns → ns < 100000 → decade 6 ns 0 10_000 ≡ 1 → Contains (bucket_index ns) ns
in_decade_1 ns lo hi e = rw (bucket_index-decade ns 1 (omega arith) (omega arith) e) (
    Contains-at ns 1 (sub_at ns 1) 10000 2812 refl refl (omega arith) (ground arith) (ground arith)
      (ground arith))

in_decade_2 :
    (ns : ℕ) → 100000 ≤ ns → ns < 1000000 → decade 6 ns 0 10_000 ≡ 2 → Contains (bucket_index ns) ns
in_decade_2 ns lo hi e = rw (bucket_index-decade ns 2 (omega arith) (omega arith) e) (
    Contains-at ns 2 (sub_at ns 2) 100000 28125 refl refl (omega arith) (ground arith)
      (ground arith) (ground arith))

in_decade_3 :
    (ns : ℕ)
    → 1000000 ≤ ns
    → ns < 10000000
    → decade 6 ns 0 10_000 ≡ 3
    → Contains (bucket_index ns) ns
in_decade_3 ns lo hi e = rw (bucket_index-decade ns 3 (omega arith) (omega arith) e) (
    Contains-at ns 3 (sub_at ns 3) 1000000 281250 refl refl (omega arith) (ground arith)
      (ground arith) (ground arith))

in_decade_4 :
    (ns : ℕ)
    → 10000000 ≤ ns
    → ns < 100000000
    → decade 6 ns 0 10_000 ≡ 4
    → Contains (bucket_index ns) ns
in_decade_4 ns lo hi e = rw (bucket_index-decade ns 4 (omega arith) (omega arith) e) (
    Contains-at ns 4 (sub_at ns 4) 10000000 2812500 refl refl (omega arith) (ground arith)
      (ground arith) (ground arith))

in_decade_5 :
    (ns : ℕ)
    → 100000000 ≤ ns
    → ns < 1000000000
    → decade 6 ns 0 10_000 ≡ 5
    → Contains (bucket_index ns) ns
in_decade_5 ns lo hi e = rw (bucket_index-decade ns 5 (omega arith) (omega arith) e) (
    Contains-at ns 5 (sub_at ns 5) 100000000 28125000 refl refl (omega arith) (ground arith)
      (ground arith) (ground arith))

in_decade_6 :
    (ns : ℕ)
    → 1000000000 ≤ ns
    → ns < 10000000000
    → decade 6 ns 0 10_000 ≡ 6
    → Contains (bucket_index ns) ns
in_decade_6 ns lo hi e = rw (bucket_index-decade ns 6 (omega arith) (omega arith) e) (
    Contains-at ns 6 (sub_at ns 6) 1000000000 281250000 refl refl (omega arith) (ground arith)
      (ground arith) (ground arith))

-- A duration from 1 µs on and below 10 s is counted in a bucket of its range: the bucket's lower bound
-- is at most the duration, and the upper bound is greater, where the duration is at least 100 µs.
pub bucket_index-Contains :
    (ns : ℕ) → 1000 ≤ ns → ns < 10_000_000_000 → Contains (bucket_index ns) ns
bucket_index-Contains ns low high = elim (decade-IsDecade ns low high) [
  | inl (e, lo, hi) ↦ in_decade_0 ns lo hi e
  | inr (inl (e, lo, hi)) ↦ in_decade_1 ns lo hi e
  | inr (inr (inl (e, lo, hi))) ↦ in_decade_2 ns lo hi e
  | inr (inr (inr (inl (e, lo, hi)))) ↦ in_decade_3 ns lo hi e
  | inr (inr (inr (inr (inl (e, lo, hi))))) ↦ in_decade_4 ns lo hi e
  | inr (inr (inr (inr (inr (inl (e, lo, hi)))))) ↦ in_decade_5 ns lo hi e
  | inr (inr (inr (inr (inr (inr ((e, lo, hi))))))) ↦ in_decade_6 ns lo hi e
]
