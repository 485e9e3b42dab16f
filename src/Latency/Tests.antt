-- ===== src/Latency/Tests.antt =====
-- Concrete latencies.
use utilities.Base.{◌≡◌, refl, List, [], ◌∷◌, ℤ, pos, negsuc, length, arith}
use utilities.Latency.Histogram.{new_histogram, bucket_index, bucket_bounds_ns}
use utilities.Latency.Buckets.{Contains, bucket_index-Contains}
use utilities.Latency.Counts.{sum, add_all, longest, add_all-Counts}

-- 9 995 ns is counted in the last bucket of the first decade, whose upper bound is 9 992 ns.
test_past_bound : bucket_bounds_ns (bucket_index 9995) ≡ (9711, 9992)
unfolding bucket_bounds_ns bucket_index
test_past_bound = refl

-- The first bucket is 281 ns wide, more than a quarter of its lower bound.
test_first_bucket : bucket_bounds_ns 0 ≡ (1000, 1281)
unfolding bucket_bounds_ns
test_first_bucket = refl

test_overflow : bucket_index 10_000_000_000 ≡ 224
unfolding bucket_index
test_overflow = refl

bucket_index-Contains_example : Contains (bucket_index 250_000) 250_000
bucket_index-Contains_example = bucket_index-Contains 250_000 (omega arith) (omega arith)

abbrev latencies : List ℤ
latencies = pos 250_000 ∷ negsuc 3 ∷ pos 12_000 ∷ []

add_all-Counts_example :
    let h = add_all new_histogram latencies in
    (length h.buckets ≡ 225)
    × (sum h.buckets ≡ length latencies)
    × (h.count ≡ length latencies)
    × (h.max_ns ≡ longest 0 latencies)
add_all-Counts_example = add_all-Counts latencies (omega arith)
