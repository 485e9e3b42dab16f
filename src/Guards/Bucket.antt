-- ===== src/Guards/Bucket.antt =====
-- security.go: `tokenBucket`. Times are nanoseconds and tokens are counted in halves of a billionth, so
-- that the refill of each nanosecond is a whole number; the source counts them in floats.
use native.Mathlib.Nat.{mul-add, mul-le-mul_left}
use utilities.Base.{
  ℕ, suc, ◌+◌, ◌-◌, ◌*◌, ◌≤◌, ◌≡◌, refl, sym, ap, ◌∙◌, ◌⊎◌, inl, inr, Bool, true, false, Option,
  none, some, List, [], ◌∷◌, leb, ltb, if◌then◌else◌, arith, Bool-cases,
}

-- `refill` is what a nanosecond adds, in the units of `tokens`; `last` is `none` for the zero time.
pub record TokenBucket : Type 0 where
  pub tokens : ℕ
  pub last : Option ℕ
  pub capacity : ℕ
  pub refill : ℕ

abbrev pub token : ℕ
token = 2000000000

abbrev pub refilled : TokenBucket → ℕ → ℕ
refilled b now = elim b.last [
  | none ↦ b.capacity
  | some t ↦ let n = b.tokens + b.refill * (now - t) in if ltb b.capacity n then b.capacity else n
]

unfoldable pub allow : ℕ → TokenBucket → Bool × TokenBucket
allow now b =
    let n = refilled b now in
    if leb token n
    then (true, record b { tokens = n - token; last = some now })
    else (false, record b { tokens = n; last = some now })

-- How many of the requests at these times are let through, and the bucket after them.
unfoldable pub allow_all : List ℕ → TokenBucket → ℕ × TokenBucket
unfolding allow
allow_all [] b = (0, b)
allow_all (now ∷ times) b =
    let (ok, b') = allow now b in
    let (n, b'') = allow_all times b' in (if ok then suc n else n, b'')

-- The times go up from the first, and end at most at the last.
abbrev pub Between : ℕ → List ℕ → ℕ → Type 0
Between first [] last = first ≤ last
Between first (t ∷ times) last = (first ≤ t) × Between t times last

allow-cases :
    (now : ℕ) (b : TokenBucket)
    → ((token ≤ refilled b now)
        × (allow now b ≡ (true, record b { tokens = refilled b now - token; last = some now })))
      ⊎ (allow now b ≡ (false, record b { tokens = refilled b now; last = some now }))
unfolding allow
allow-cases now b = elim (Bool-cases (leb token (refilled b now))) [
  | inl e ↦ inl (ground arith, rw e refl)
  | inr e ↦ inr (rw e refl)
]

split_refill :
    (r t now last : ℕ) → t ≤ now → now ≤ last → r * (now - t) + r * (last - now) ≡ r * (last - t)
split_refill r t now last le le' =
    let parts : (now - t) + (last - now) ≡ last - t = omega arith in
    sym (mul-add r (now - t) (last - now)) ∙ ap (λ d. r * d) parts

refilled-le :
    (b : TokenBucket) (t now : ℕ)
    → b.last ≡ some t
    → refilled b now ≤ b.tokens + b.refill * (now - t)
refilled-le b t now e = rw e (ground arith)

Between-le : (t : ℕ) (times : List ℕ) (last : ℕ) → Between t times last → t ≤ last
Between-le t [] last h = h
Between-le t (now ∷ times) last (le, rest) =
    let later = Between-le now times last rest in omega arith

allow_all-bound :
    (times : List ℕ) (b : TokenBucket) (t last : ℕ)
    → b.last ≡ some t
    → Between t times last
    → (allow_all times b).0 * token ≤ b.tokens + b.refill * (last - t)
unfolding allow_all
allow_all-bound [] b t last e order = omega arith
allow_all-bound (now ∷ times) b t last e (le, rest) =
    let le' = Between-le now times last rest in
    let whole = split_refill b.refill t now last le le' in
    let start = refilled-le b t now e in
    elim (allow-cases now b) [
      | inl (enough, step) ↦
          let b' : TokenBucket = record b { tokens = refilled b now - token; last = some now } in
          let more = allow_all-bound times b' now last refl rest in
          rw (allow_all, step) (omega arith)
      | inr step ↦
          let b' : TokenBucket = record b { tokens = refilled b now; last = some now } in
          let more = allow_all-bound times b' now last refl rest in
          rw (allow_all, step) (omega arith)
    ]

-- The bucket that a client's first request to a path makes.
abbrev pub new_bucket : ℕ → ℕ → TokenBucket
new_bucket capacity refill = record {
  tokens = 0;
  last = none;
  capacity = capacity;
  refill = refill;
}

-- However the requests of a client are spread in time, those that are let through from the first one on
-- are at most the bucket's capacity and what was refilled until the last one.
pub new_bucket-bound :
    (capacity refill first : ℕ) (times : List ℕ) (last : ℕ)
    → Between first times last
    → (allow_all (first ∷ times) (new_bucket capacity refill)).0 * token
      ≤ capacity + refill * (last - first)
unfolding allow_all
new_bucket-bound capacity refill first times last order =
    elim (allow-cases first (new_bucket capacity refill)) [
      | inl (enough, step) ↦
          let more =
            allow_all-bound times
              (record {
                tokens = capacity - token;
                last = some first;
                capacity = capacity;
                refill = refill;
              })
              first last refl order in
          rw (allow_all, step) (omega arith)
      | inr step ↦
          let more =
            allow_all-bound times
              (record {
                tokens = capacity;
                last = some first;
                capacity = capacity;
                refill = refill;
              })
              first last refl order in
          rw (allow_all, step) (omega arith)
    ]

-- A bucket that has had the time to fill up answers, and goes on, like one that was just made.
pub allow-new_bucket :
    (b : TokenBucket) (t idle now : ℕ)
    → b.last ≡ some t
    → b.capacity ≤ b.refill * idle
    → t + idle ≤ now
    → allow now b ≡ allow now (new_bucket b.capacity b.refill)
unfolding allow
allow-new_bucket b t idle now e fills waited =
    let enough : b.refill * idle ≤ b.refill * (now - t) = mul-le-mul_left b.refill (omega arith) in
    let full : refilled b now ≡ b.capacity = rw e (ground arith) in rw full refl

-- As at the first request.
pub allow_first :
    (b : TokenBucket) (now : ℕ)
    → b.last ≡ none
    → allow now b ≡ allow now (new_bucket b.capacity b.refill)
unfolding allow
allow_first b now e = rw e refl
