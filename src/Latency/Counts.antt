-- ===== src/Latency/Counts.antt =====
-- histogram.go: the counters after a sequence of observations.
use utilities.Base.{
  ℕ, zero, suc, ◌+◌, ◌%◌, ◌^◌, ◌≤◌, ◌<◌, ◌≡◌, refl, some, List, [], ◌∷◌, ℤ, pos_part, ltb, leb,
  length, get_elem?, get_elem?_of_lt, set, length-set, max, arith, inl, inr, Bool-cases,
}
use utilities.Latency.Histogram.{Histogram, new_histogram, bump, bucket_index, add}
use utilities.Latency.Buckets.{bucket_index-Contains}

abbrev pub sum : List ℕ → ℕ
sum [] = 0
sum (n ∷ ns) = n + sum ns

unfoldable pub add_all : Histogram → List ℤ → Histogram
unfolding add
add_all h [] = h
add_all h (d ∷ ds) = add_all (add h d) ds

-- The longest of some durations, and of a first one.
unfoldable pub longest : ℕ → List ℤ → ℕ
longest m [] = m
longest m (d ∷ ds) = longest (max m (pos_part d)) ds

sum-set :
    (xs : List ℕ) (i m v : ℕ)
    → get_elem? xs i ≡ some m
    → (sum (set xs i v) + m ≡ sum xs + v) × (m ≤ sum xs)
sum-set [] i m v h = cc
sum-set (x ∷ xs) zero m v h = let same : x ≡ m = cc in (omega arith, omega arith)
sum-set (x ∷ xs) (suc i) m v h = let (total, low) = sum-set xs i m v h in (omega arith, omega arith)

bump-counts :
    (buckets : List ℕ) (i : ℕ)
    → i < length buckets
    → sum buckets + 1 < 2 ^ 64
    → (length (bump buckets i) ≡ length buckets) × (sum (bump buckets i) ≡ sum buckets + 1)
bump-counts buckets i h small =
    let (m, e) = get_elem?_of_lt buckets i h in
    let (total, low) = sum-set buckets i m ((m + 1) % 2 ^ 64) e in
    let bumped : bump buckets i ≡ set buckets i ((m + 1) % 2 ^ 64) = rw (bump, e) refl in
    rw bumped (length-set buckets i ((m + 1) % 2 ^ 64), omega arith)

bucket_index-lt : (ns : ℕ) → bucket_index ns < 225
unfolding bucket_index
bucket_index-lt ns = elim (Bool-cases (ltb ns 1000)) [
  | inl e ↦ rw (e, bucket_index) (omega arith)
  | inr e ↦ elim (Bool-cases (leb 10_000_000_000 ns)) [
    | inl f ↦ rw (e, bucket_index, f) (omega arith)
    | inr f ↦
        let (inside, low, high) = bucket_index-Contains ns (ground arith) (ground arith) in
        omega arith
  ]
]

abbrev pub IsCounted : Histogram → Type 0
IsCounted h = (length h.buckets ≡ 225) × (sum h.buckets ≡ h.count)

add-IsCounted :
    (h : Histogram) (d : ℤ)
    → h.count + 1 < 2 ^ 64
    → IsCounted h
    → IsCounted (add h d) × ((add h d).count ≡ h.count + 1)
unfolding add
add-IsCounted h d small (size, total) =
    let inside = bucket_index-lt (pos_part d) in
    let (same, more) =
      bump-counts h.buckets (bucket_index (pos_part d)) (omega arith) (omega arith) in
    ((omega arith, omega arith), omega arith)

max_ns-add : (h : Histogram) (d : ℤ) → (add h d).max_ns ≡ max h.max_ns (pos_part d)
unfolding add
max_ns-add h d = ground arith

add_all-counts :
    (h : Histogram) (ds : List ℤ)
    → h.count + length ds < 2 ^ 64
    → IsCounted h
    → IsCounted (add_all h ds)
      × ((add_all h ds).count ≡ h.count + length ds)
      × ((add_all h ds).max_ns ≡ longest h.max_ns ds)
unfolding add_all longest
add_all-counts h [] small counted = (counted, omega arith, refl)
add_all-counts h (d ∷ ds) small counted =
    let (next, one) = add-IsCounted h d (omega arith) counted in
    let (all, count, top) = add_all-counts (add h d) ds (omega arith) next in
    (all, omega arith, rw⁻¹ (max_ns-add h d) top)

-- After any observations, fewer than 2 ^ 64, a new histogram has a count for each of its 225 buckets,
-- they sum up to its count, which is the number of observations, and its maximum is the longest of
-- them, where a negative one counts as 0.
pub add_all-Counts :
    (ds : List ℤ)
    → length ds < 2 ^ 64
    → let h = add_all new_histogram ds in
      (length h.buckets ≡ 225)
      × (sum h.buckets ≡ length ds)
      × (h.count ≡ length ds)
      × (h.max_ns ≡ longest 0 ds)
add_all-Counts ds small =
    let (counted, count, top) = add_all-counts new_histogram ds (omega arith) (refl, refl) in
    (counted.0, omega arith, omega arith, top)
