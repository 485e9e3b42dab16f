-- ===== src/Latency/Histogram.antt =====
-- histogram.go: the buckets and `Add`. Durations are nanoseconds; the counters are uint64. Each
-- call of `Add` is one step, since its counters are atomic.
use utilities.Base.{
  ℕ, zero, suc, ◌+◌, ◌-◌, ◌*◌, ◌/◌, ◌%◌, ◌^◌, ◌&&◌, none, some, List, ℤ, pos_part, ltb, leb,
  get_elem?, set, replicate, if◌then◌else◌,
}

abbrev pub min_ns : ℕ
min_ns = 1000

abbrev pub decades : ℕ
decades = 7

abbrev pub sub_buckets : ℕ
sub_buckets = 32

abbrev pub num_buckets : ℕ
num_buckets = 225

pub record Histogram : Type 0 where
  pub buckets : List ℕ
  pub count : ℕ
  pub sum_ns : ℕ
  pub max_ns : ℕ

abbrev pub new_histogram : Histogram
new_histogram = record { buckets = replicate 225 0; count = 0; sum_ns = 0; max_ns = 0 }

abbrev pub pow10 : ℕ → ℕ
pow10 zero = 1
pow10 (suc n) = pow10 n * 10

-- `for ns >= thresh && d < decades-1`, on fuel: `d` reaches 6 in at most six rounds.
unfoldable pub decade : ℕ → ℕ → ℕ → ℕ → ℕ
decade zero ns d thresh = d
decade (suc fuel) ns d thresh =
    let next = decade fuel ns (d + 1) (thresh * 10) in if leb thresh ns && ltb d 6 then next else d

abbrev pub step_of : ℕ → ℕ
step_of low = let step = (low * 10 - low) / 32 in if leb step 0 then 1 else step

unfoldable pub bucket_index : ℕ → ℕ
unfolding decade
bucket_index ns =
    let d = decade 6 ns 0 10_000 in
    let low = 1000 * pow10 d in
    let sub = (ns - low) / step_of low in
    if ltb ns 1000
    then 0
    else if leb 10_000_000_000 ns
    then 224
    else d * 32 + (if leb 32 sub then 31 else sub)

unfoldable pub bucket_bounds_ns : ℕ → ℕ × ℕ
bucket_bounds_ns idx =
    let low = 1000 * pow10 (idx / 32) in
    let step = (low * 10 - low) / 32 in
    if leb 224 idx
    then (10_000_000_000, 100_000_000_000)
    else (low + idx % 32 * step, low + (idx % 32 + 1) * step)

abbrev pub bump : List ℕ → ℕ → List ℕ
bump buckets i = elim (get_elem? buckets i) [
  | none ↦ buckets
  | some n ↦ set buckets i ((n + 1) % 2 ^ 64)
]

-- A negative duration counts as 0.
unfoldable pub add : Histogram → ℤ → Histogram
unfolding bucket_index
add h d =
    let ns = pos_part d in
    record {
      buckets = bump h.buckets (bucket_index ns);
      count = (h.count + 1) % 2 ^ 64;
      sum_ns = (h.sum_ns + ns) % 2 ^ 64;
      max_ns = if leb ns h.max_ns then h.max_ns else ns;
    }
