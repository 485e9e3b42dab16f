-- ===== src/Guards/Limits.antt =====
-- security.go: `RateLimit`. Go's parsing of addresses is a parameter, and so is the set of the trusted
-- proxies.
use text.Mathlib.Text.{find?}
use Prim.Native.String.{slice}
use utilities.Base.{
  ℕ, ◌+◌, ◌*◌, String, Bool, true, false, Option, none, some, [], ◌∷◌, ◌==◌, string_keyed,
  str_append, Dict, lookup, insert, ltb, if◌then◌else◌,
}
use utilities.Guards.Requests.{Verdict}
use utilities.Guards.Bucket.{TokenBucket, token, allow, new_bucket}

pub record Peer : Type 0 where
  pub path : String
  pub remote_addr : String
  pub forwarded_for : String

-- The capacity in tokens, and the refill of a second in half tokens.
abbrev limit : ℕ → ℕ → ℕ × ℕ
limit capacity halves = (capacity * token, halves)

abbrev pub rate_limited_paths : Dict String (ℕ × ℕ)
rate_limited_paths =
    ("/api/start", limit 10 2)
    ∷ ("/api/probe", limit 10 2)
    ∷ ("/api/schedule", limit 10 2)
    ∷ ("/api/schedule/cancel", limit 10 2)
    ∷ ("/api/stop", limit 10 2)
    ∷ ("/api/hostkeys/remove", limit 10 2)
    ∷ ("/api/cluster/start", limit 5 1)
    ∷ ("/api/cluster/stop", limit 10 2)
    ∷ ("/api/worker/spawn", limit 5 1)
    ∷ ("/api/worker/despawn", limit 10 2)
    ∷ ("/api/worker/preflight", limit 10 2)
    ∷ ("/api/worker/probe", limit 120 120)
    ∷ ("/api/runs", limit 60 60)
    ∷ ("/api/host", limit 60 60)
    ∷ ("/api/status", limit 60 60)
    ∷ ("/api/schedules", limit 60 60)
    ∷ ("/api/hostkeys", limit 60 60)
    ∷ ("/api/cluster/status", limit 60 60)
    ∷ ("/api/worker/spawned", limit 60 60)
    ∷ []

-- Ten minutes.
abbrev pub idle_time : ℕ
idle_time = 600000000000

abbrev pub before_comma : String → String
before_comma s = elim (find? s ",") [ none ↦ s | some i ↦ slice s 0 i ]

-- `split_host` is the host of an address with a port, `proxies` tells whether there are trusted proxies,
-- and `is_proxy` whether a text is the address of one of them.
pub record Net : Type 0 where
  pub split_host : String → Option String
  pub proxies : Bool
  pub is_proxy : String → Bool
  pub trim : String → String

abbrev pub host_of : Net → String → String
host_of net addr = elim (net.split_host addr) [ none ↦ addr | some host ↦ host ]

unfoldable pub source_is_trusted_proxy : Net → String → Bool
source_is_trusted_proxy net addr = if net.proxies then net.is_proxy (host_of net addr) else false

unfoldable pub client_ip : Net → Peer → String
unfolding source_is_trusted_proxy
client_ip net r =
    if source_is_trusted_proxy net r.remote_addr
    then if r.forwarded_for == ""
      then host_of net r.remote_addr
      else net.trim (before_comma r.forwarded_for)
    else host_of net r.remote_addr

abbrev pub bucket_key : Net → Peer → String
bucket_key net r = str_append (client_ip net r) (str_append "|" r.path)

abbrev pub bucket_of : Option TokenBucket → ℕ × ℕ → TokenBucket
bucket_of none (capacity, refill) = new_bucket capacity refill
bucket_of (some b) l = b

abbrev pub answer :
    String → Bool × TokenBucket → Dict String TokenBucket → Verdict × Dict String TokenBucket
answer key (ok, b) buckets =
    (if ok then Verdict.passed else Verdict.refused 429, insert key b buckets)

unfoldable pub rate_limit :
    Net → (now : ℕ) → Peer → Dict String TokenBucket → Verdict × Dict String TokenBucket
unfolding client_ip allow
rate_limit net now r buckets = elim (lookup r.path rate_limited_paths) [
  | none ↦ (Verdict.passed, buckets)
  | some l ↦
      answer (bucket_key net r) (allow now (bucket_of (lookup (bucket_key net r) buckets) l))
        buckets
]

abbrev pub is_idle : (now : ℕ) → TokenBucket → Bool
is_idle now b = elim b.last [ none ↦ true | some t ↦ ltb (t + idle_time) now ]

-- The sweep of every ten minutes.
unfoldable pub evict : (now : ℕ) → Dict String TokenBucket → Dict String TokenBucket
evict now [] = []
evict now ((key, b) ∷ buckets) =
    let rest = evict now buckets in if is_idle now b then rest else (key, b) ∷ rest
