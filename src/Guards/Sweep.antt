-- ===== src/Guards/Sweep.antt =====
-- security.go: the sweep of the buckets of `RateLimit`, and the header of the proxies.
use utilities.Base.{
  ℕ, ◌+◌, ◌*◌, ◌≤◌, ◌≡◌, refl, sym, ap, subst, ◌∙◌, inl, inr, String, Bool, true, false, Option,
  none, some, [], ◌∷◌, ◌==◌, string_keyed, str_append, Dict, lookup, IsUnique, insert-IsUnique, ltb,
  leb, if◌then◌else◌, arith, Bool-cases, Option-cases,
}
use utilities.Guards.Requests.{Verdict}
use utilities.Guards.Bucket.{TokenBucket, allow, new_bucket, allow-new_bucket, allow_first}
use utilities.Guards.Limits.{
  Net, Peer, rate_limited_paths, idle_time, source_is_trusted_proxy, client_ip, bucket_key,
  bucket_of, answer, rate_limit, is_idle, evict,
}

-- A limit fills its bucket while the bucket is idle.
abbrev fills : Dict String (ℕ × ℕ) → Bool
fills [] = true
fills ((path, (capacity, refill)) ∷ limits) =
    if leb capacity (refill * idle_time) then fills limits else false

table-fills : fills rate_limited_paths ≡ true
table-fills = refl

lookup-fills :
    (limits : Dict String (ℕ × ℕ)) (path : String) (l : ℕ × ℕ)
    → fills limits ≡ true
    → lookup path limits ≡ some l
    → l.0 ≤ l.1 * idle_time
unfolding lookup
lookup-fills [] path l f h = cc
lookup-fills ((name, (capacity, refill)) ∷ limits) path l f h = elim (Bool-cases (name == path)) [
  | inl e ↦
      let here : some (capacity, refill) ≡ some l = rw e at h in
      let same : (capacity, refill) ≡ l = cc in
      subst (λ m. m.0 ≤ m.1 * idle_time) same (ground arith)
  | inr e ↦ lookup-fills limits path l (ground arith) (rw e at h)
]

-- What the sweep leaves of a bucket.
abbrev left : ℕ → Option TokenBucket → Option TokenBucket
left now none = none
left now (some b) = if is_idle now b then none else some b

lookup-evict :
    (now : ℕ) (key : String) (buckets : Dict String TokenBucket)
    → IsUnique buckets
    → lookup key (evict now buckets) ≡ left now (lookup key buckets)
unfolding evict lookup
lookup-evict now key [] unique = refl
lookup-evict now key ((name, b) ∷ buckets) (once, unique) =
    let rest = lookup-evict now key buckets unique in
    elim (Bool-cases (name == key)) [
      | inl e ↦
          let same : name ≡ key = (string_keyed.same_iff name key).0 e in
          let gone : lookup key (evict now buckets) ≡ none =
            rest ∙ ap (left now) (subst (λ k. lookup k buckets ≡ none) same once) in
          elim (Bool-cases (is_idle now b)) [
            | inl idle ↦ rw (e, idle) gone
            | inr busy ↦ rw (e, busy, lookup, e) refl
          ]
      | inr e ↦ elim (Bool-cases (is_idle now b)) [
        | inl idle ↦ rw (e, idle) rest
        | inr busy ↦ rw (e, busy, lookup, e) rest
      ]
    ]

-- The bucket is one that the limit made.
abbrev pub IsOf : ℕ × ℕ → Option TokenBucket → Type 0
IsOf l none = Unit
IsOf l (some b) = (b.capacity ≡ l.0) × (b.refill ≡ l.1)

left-allow :
    (now later : ℕ) (l : ℕ × ℕ) (o : Option TokenBucket)
    → l.0 ≤ l.1 * idle_time
    → now ≤ later
    → IsOf l o
    → allow later (bucket_of (left now o) l) ≡ allow later (bucket_of o l)
left-allow now later l none filled order h = refl
left-allow now later l (some b) filled order (cap, rate) =
    let same : new_bucket b.capacity b.refill ≡ new_bucket l.0 l.1 = rw (cap, rate) refl in
    elim (Bool-cases (is_idle now b)) [
      | inr busy ↦ rw busy refl
      | inl idle ↦ rw idle (elim (Option-cases b.last) [
        | inl never ↦ sym (allow_first b later never ∙ ap (allow later) same)
        | inr (t, e) ↦
            let long : ltb (t + idle_time) now ≡ true = rw e at idle in
            sym (
              allow-new_bucket b t idle_time later e (rw (cap, rate) filled) (ground arith)
              ∙ ap (allow later) same)
      ])
    ]

rate_limit-limited :
    (net : Net) (now : ℕ) (r : Peer) (buckets : Dict String TokenBucket) (l : ℕ × ℕ)
    → lookup r.path rate_limited_paths ≡ some l
    → rate_limit net now r buckets
      ≡ answer
          (bucket_key net r)
          (allow now (bucket_of (lookup (bucket_key net r) buckets) l))
          buckets
unfolding rate_limit
rate_limit-limited net now r buckets l e = rw (e, rate_limit) refl

rate_limit-free :
    (net : Net) (now : ℕ) (r : Peer) (buckets : Dict String TokenBucket)
    → lookup r.path rate_limited_paths ≡ none
    → rate_limit net now r buckets ≡ (Verdict.passed, buckets)
unfolding rate_limit
rate_limit-free net now r buckets e = rw (e, rate_limit) refl

evict-IsUnique :
    (now : ℕ) (buckets : Dict String TokenBucket) → IsUnique buckets → IsUnique (evict now buckets)
unfolding evict
evict-IsUnique now [] unique = tt
evict-IsUnique now ((name, b) ∷ buckets) (once, unique) = elim (Bool-cases (is_idle now b)) [
  | inl e ↦ rw e (evict-IsUnique now buckets unique)
  | inr e ↦
      rw e (
        lookup-evict now name buckets unique ∙ ap (left now) once,
        evict-IsUnique now buckets unique,
      )
]

rate_limit-IsUnique :
    (net : Net) (now : ℕ) (r : Peer) (buckets : Dict String TokenBucket)
    → IsUnique buckets
    → IsUnique (rate_limit net now r buckets).1 × IsUnique (evict now buckets)
rate_limit-IsUnique net now r buckets unique = (
  elim (Option-cases (lookup r.path rate_limited_paths)) [
    | inl e ↦ rw (rate_limit-free net now r buckets e) unique
    | inr (l, e) ↦ rw (rate_limit-limited net now r buckets l e) (
        insert-IsUnique (bucket_key net r)
          (allow now (bucket_of (lookup (bucket_key net r) buckets) l)).1 buckets unique)
  ],
  evict-IsUnique now buckets unique,
)

-- The buckets that requests and sweeps, in any order, make of none.
pub data Served (net : Net) : Dict String TokenBucket → Type 0 where
  first : Served net []
  asked :
      (now : ℕ) (r : Peer) (buckets : Dict String TokenBucket)
      → Served net buckets
      → Served net (rate_limit net now r buckets).1
  swept :
      (now : ℕ) (buckets : Dict String TokenBucket)
      → Served net buckets
      → Served net (evict now buckets)

Served-IsUnique :
    (net : Net) (buckets : Dict String TokenBucket) → Served net buckets → IsUnique buckets
Served-IsUnique net _ Served.first = tt
Served-IsUnique net _ (Served.asked now r buckets before) =
    (rate_limit-IsUnique net now r buckets (Served-IsUnique net buckets before)).0
Served-IsUnique net _ (Served.swept now buckets before) =
    evict-IsUnique now buckets (Served-IsUnique net buckets before)

-- The sweep cannot be noticed. After any requests and sweeps, a request to a limited path at the time of
-- a sweep or later gets the same answer as without that sweep, where its bucket was made by the path's
-- limit: a bucket that the sweep drops would be full again.
pub rate_limit-evict :
    (net : Net) (now later : ℕ) (r : Peer) (buckets : Dict String TokenBucket) (l : ℕ × ℕ)
    → Served net buckets
    → lookup r.path rate_limited_paths ≡ some l
    → IsOf l (lookup (bucket_key net r) buckets)
    → now ≤ later
    → (rate_limit net later r (evict now buckets)).0 ≡ (rate_limit net later r buckets).0
rate_limit-evict net now later r buckets l served limited made order =
    let key = bucket_key net r in
    let swept_key = lookup-evict now key buckets (Served-IsUnique net buckets served) in
    let same =
      left-allow now later l (lookup key buckets)
        (lookup-fills rate_limited_paths r.path l table-fills limited) order made in
    rw
      (
        rate_limit-limited net later r (evict now buckets) l limited,
        rate_limit-limited net later r buckets l limited,
        swept_key,
        same,
      )
      refl

client_ip-forwarded_for :
    (net : Net) (r : Peer) (header : String)
    → source_is_trusted_proxy net r.remote_addr ≡ false
    → client_ip net (record r { forwarded_for = header }) ≡ client_ip net r
unfolding client_ip
client_ip-forwarded_for net r header direct = rw direct refl

-- Without a trusted proxy in front of it a client cannot choose the bucket that it is counted in: the
-- forwarded-for header has no effect.
pub rate_limit-forwarded_for :
    (net : Net) (now : ℕ) (r : Peer) (header : String) (buckets : Dict String TokenBucket)
    → source_is_trusted_proxy net r.remote_addr ≡ false
    → rate_limit net now (record r { forwarded_for = header }) buckets
      ≡ rate_limit net now r buckets
rate_limit-forwarded_for net now r header buckets direct =
    let same = client_ip-forwarded_for net r header direct in
    let r' : Peer = record r { forwarded_for = header } in
    let counted : String → ℕ × ℕ → Verdict × Dict String TokenBucket = λ ip l.
      let key = str_append ip (str_append "|" r.path) in
      answer key (allow now (bucket_of (lookup key buckets) l)) buckets in
    elim (Option-cases (lookup r.path rate_limited_paths)) [
      | inl e ↦ rate_limit-free net now r' buckets e ∙ sym (rate_limit-free net now r buckets e)
      | inr (l, e) ↦
          rate_limit-limited net now r' buckets l e
          ∙ ap (λ ip. counted ip l) same
          ∙ sym (rate_limit-limited net now r buckets l e)
    ]
