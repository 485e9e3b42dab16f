-- ===== src/Guards/Tests.antt =====
-- Requests of one client.
use utilities.Base.{
  ◌+◌, ◌-◌, ◌*◌, ◌≤◌, ◌≡◌, refl, subst, String, true, false, some, [], ◌∷◌, Dict, lookup, insert,
  string_keyed, arith,
}
use utilities.Guards.Requests.{Request, Verdict, basic_auth, csrf_guard}
use utilities.Guards.Bucket.{TokenBucket, token, allow, allow_all, new_bucket, new_bucket-bound}
use utilities.Guards.Limits.{Net, Peer, source_is_trusted_proxy, client_ip, rate_limit, evict}
use utilities.Guards.Sweep.{Served, rate_limit-evict, rate_limit-forwarded_for}

abbrev request : Request
request = record {
  method = "POST";
  path = "/api/start";
  detail = "";
  credentials = some ("admin", "secret");
  requested_with = "";
}

test_csrf_guard : csrf_guard request ≡ Verdict.refused 403
unfolding csrf_guard
test_csrf_guard = refl

test_basic_auth : basic_auth "admin" "other" request ≡ Verdict.refused 401
unfolding basic_auth
test_basic_auth = refl

-- One token, and one more in each second.
test_allow_all : (allow_all (0 ∷ 1 ∷ 1000000000 ∷ []) (new_bucket token 2)).0 ≡ 2
unfolding allow_all allow
test_allow_all = refl

new_bucket-bound_example :
    (allow_all (0 ∷ 1 ∷ 1000000000 ∷ []) (new_bucket token 2)).0 * token
    ≤ token + 2 * (1000000000 - 0)
new_bucket-bound_example =
    new_bucket-bound token 2 0 (1 ∷ 1000000000 ∷ []) 1000000000
      (omega arith, (omega arith, omega arith))

abbrev net : Net
net = record {
  split_host = λ addr. some addr;
  proxies = true;
  is_proxy = λ host. false;
  trim = λ s. s;
}

abbrev peer : Peer
peer = record { path = "/api/stop"; remote_addr = "10.0.0.1"; forwarded_for = "1.2.3.4" }

abbrev bucket : TokenBucket
bucket = record { tokens = 0; last = some 5; capacity = 10 * token; refill = 2 }

abbrev buckets : Dict String TokenBucket
buckets = ("10.0.0.1|/api/stop", bucket) ∷ []

test_evict : evict 700000000000 buckets ≡ []
unfolding evict
test_evict = refl

test_rate_limit : (rate_limit net 6 peer buckets).0 ≡ Verdict.refused 429
unfolding rate_limit source_is_trusted_proxy client_ip allow lookup insert
test_rate_limit = refl

-- The bucket of one request, at the time 5.
abbrev after_one : Dict String TokenBucket
after_one = ("10.0.0.1|/api/stop", record bucket { tokens = 9 * token }) ∷ []

after_one_lem : (rate_limit net 5 peer []).1 ≡ after_one
unfolding rate_limit source_is_trusted_proxy client_ip allow lookup insert
after_one_lem = refl

rate_limit-evict_example :
    (rate_limit net 700000000000 peer (evict 700000000000 after_one)).0
    ≡ (rate_limit net 700000000000 peer after_one).0
unfolding source_is_trusted_proxy client_ip lookup
rate_limit-evict_example =
    rate_limit-evict net 700000000000 700000000000 peer after_one (10 * token, 2)
      (subst (λ b. Served net b) after_one_lem (Served.asked 5 peer [] Served.first)) refl
      (refl, refl) (omega arith)

test_rate_limit_forwarded_for :
    rate_limit net 6 (record peer { forwarded_for = "8.8.8.8" }) buckets
    ≡ rate_limit net 6 peer buckets
unfolding source_is_trusted_proxy
test_rate_limit_forwarded_for = rate_limit-forwarded_for net 6 peer "8.8.8.8" buckets refl
