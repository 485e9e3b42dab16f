-- ===== src/Vault/Format/RoundTrip.antt =====
-- vault/vault.go: the header that `Open` reads against the one that `Save` writes.
use utilities.Base.{
  ℕ, zero, suc, ◌+◌, ◌*◌, ◌/◌, ◌%◌, ◌<◌, ◌≤◌, true, false, List, [], ◌∷◌, ◌++◌, length, take, drop,
  ltb, eqb, eqb_iff, All, Bool-cases, ◌≡◌, refl, sym, ap, ◌∙◌, inl, inr, length-append, arith,
}
use utilities.Vault.Format.{
  Bytes, Header, put_uint32, uint32_at, same_bytes, byte_at, header_of, file_magic, parse, blob,
}

-- The sizes that the fields of a header have in a file.
abbrev pub IsSized : Header → Type 0
IsSized h =
    (h.mem_kib < 4294967296)
    × (h.iterations < 4294967296)
    × (length h.salt ≡ 16)
    × (length h.nonce ≡ 12)

module _ {ℓ} {A : Type ℓ} where
  take-append : (n : ℕ) (xs ys : List A) → length xs ≡ n → take n (xs ++ ys) ≡ xs
  take-append zero [] ys h = refl
  take-append zero (x ∷ xs) ys h = cc
  take-append (suc n) [] ys h = cc
  take-append (suc n) (x ∷ xs) ys h = ap (λ l. x ∷ l) (take-append n xs ys (omega arith))

  drop-append : (n : ℕ) (xs ys : List A) → length xs ≡ n → drop n (xs ++ ys) ≡ ys
  drop-append zero [] ys h = refl
  drop-append zero (x ∷ xs) ys h = cc
  drop-append (suc n) [] ys h = cc
  drop-append (suc n) (x ∷ xs) ys h = drop-append n xs ys (omega arith)

  take-drop : (n : ℕ) (xs : List A) → xs ≡ take n xs ++ drop n xs
  take-drop zero xs = refl
  take-drop (suc n) [] = refl
  take-drop (suc n) (x ∷ xs) = ap (λ l. x ∷ l) (take-drop n xs)

  drop_nil : (m : ℕ) → [] ≡ drop {A = A} m []
  drop_nil zero = refl
  drop_nil (suc m) = refl

  drop-drop : (n k m : ℕ) (xs : List A) → k + n ≡ m → drop n (drop k xs) ≡ drop m xs
  drop-drop n zero m xs h = ap (λ i. drop i xs) (omega arith)
  drop-drop zero (suc k) m [] h = drop_nil m
  drop-drop (suc n) (suc k) m [] h = drop_nil m
  drop-drop n (suc k) zero (x ∷ xs) h = absurd (omega arith)
  drop-drop n (suc k) (suc m) (x ∷ xs) h = drop-drop n k m xs (omega arith)

uint32_bytes :
    (n : ℕ)
    → n < 4294967296
    → (n / 16777216) % 256 * 16777216 + (n / 65536) % 256 * 65536 + (n / 256) % 256 * 256 + n % 256
      ≡ n
uint32_bytes n h = omega arith

same_bytes-eq : (a b : Bytes) → same_bytes a b ≡ true → a ≡ b
unfolding same_bytes
same_bytes-eq [] [] h = refl
same_bytes-eq [] (y ∷ ys) h = cc
same_bytes-eq (x ∷ xs) [] h = cc
same_bytes-eq (x ∷ xs) (y ∷ ys) h = elim (Bool-cases (eqb x y)) [
  | inl e ↦
      let first = (eqb_iff x y).0 e in
      let rest = same_bytes-eq xs ys (rw e at h) in rw (first, rest) refl
  | inr e ↦ let stop : false ≡ true = rw e at h in cc
]

-- The four checks of the header, passed.
parse_accepts :
    (raw : Bytes)
    → 43 ≤ length raw
    → take 4 raw ≡ file_magic
    → byte_at raw 4 ≡ 1
    → byte_at raw 5 ≡ 1
    → parse raw ≡ inr (header_of raw)
unfolding parse
parse_accepts raw long magic version kdf =
    let enough : ltb (length raw) 43 ≡ false = ground arith in rw (enough, magic, version, kdf) refl

blob_long : (h : Header) → IsSized h → 43 ≤ length (blob h)
unfolding blob put_uint32
blob_long h (mem, iters, salt, nonce) =
    omega
      (arith, length-append h.salt (h.nonce ++ h.ciphertext), length-append h.nonce h.ciphertext)

header_of-blob : (h : Header) → IsSized h → header_of (blob h) ≡ h
unfolding blob put_uint32 uint32_at
header_of-blob h (mem, iters, salt, nonce) =
    let after_nonce : drop 28 (h.salt ++ (h.nonce ++ h.ciphertext)) ≡ h.ciphertext =
      sym (drop-drop 12 16 28 (h.salt ++ (h.nonce ++ h.ciphertext)) refl)
      ∙ ap (drop 12) (drop-append 16 h.salt (h.nonce ++ h.ciphertext) salt)
      ∙ drop-append 12 h.nonce h.ciphertext nonce in
    rw
      (
        uint32_bytes h.mem_kib mem,
        uint32_bytes h.iterations iters,
        take-append 16 h.salt (h.nonce ++ h.ciphertext) salt,
        drop-append 16 h.salt (h.nonce ++ h.ciphertext) salt,
        take-append 12 h.nonce h.ciphertext nonce,
        after_nonce,
      )
      refl

-- The header that `Save` writes is the one that `Open` reads, in front of any ciphertext.
pub parse-blob : (h : Header) → IsSized h → parse (blob h) ≡ inr h
unfolding blob put_uint32
parse-blob h sized =
    parse_accepts (blob h) (blob_long h sized) refl refl refl ∙ ap inr (header_of-blob h sized)

next_byte : (i : ℕ) (raw : Bytes) → i < length raw → drop i raw ≡ byte_at raw i ∷ drop (suc i) raw
next_byte i [] h = absurd (omega arith)
next_byte zero (b ∷ raw) h = refl
next_byte (suc i) (b ∷ raw) h = next_byte i raw (omega arith)

-- The fields of one byte, and the bytes of the two numbers.
fixed_bytes :
    (raw sealed : Bytes)
    → 43 ≤ length raw
    → drop 15 raw ≡ sealed
    → drop 4 raw
      ≡ byte_at raw 4
        ∷ byte_at raw 5
        ∷ byte_at raw 6
        ∷ byte_at raw 7
        ∷ byte_at raw 8
        ∷ byte_at raw 9
        ∷ byte_at raw 10
        ∷ byte_at raw 11
        ∷ byte_at raw 12
        ∷ byte_at raw 13
        ∷ byte_at raw 14
        ∷ sealed
fixed_bytes raw sealed h e =
    rw
      (
        next_byte 4 raw (omega arith),
        next_byte 5 raw (omega arith),
        next_byte 6 raw (omega arith),
        next_byte 7 raw (omega arith),
        next_byte 8 raw (omega arith),
        next_byte 9 raw (omega arith),
        next_byte 10 raw (omega arith),
        next_byte 11 raw (omega arith),
        next_byte 12 raw (omega arith),
        next_byte 13 raw (omega arith),
        next_byte 14 raw (omega arith),
        e,
      )
      refl

sealed_bytes :
    (raw : Bytes) → drop 15 raw ≡ take 16 (drop 15 raw) ++ (take 12 (drop 31 raw) ++ drop 43 raw)
sealed_bytes raw =
    take-drop 16 (drop 15 raw)
    ∙ ap (λ l. take 16 (drop 15 raw) ++ l)
        (drop-drop 16 15 31 raw refl
          ∙ take-drop 12 (drop 31 raw)
          ∙ ap (λ l. take 12 (drop 31 raw) ++ l) (drop-drop 12 31 43 raw refl))

abbrev pub AreBytes : Bytes → Type 0
AreBytes = All (λ b. b < 256)

byte_at-lt : (raw : Bytes) (i : ℕ) → AreBytes raw → byte_at raw i < 256
byte_at-lt [] i all = omega arith
byte_at-lt (b ∷ raw) zero all = all.0
byte_at-lt (b ∷ raw) (suc i) all = byte_at-lt raw i all.1

put_uint32-uint32 :
    (a b c d : ℕ)
    → a < 256
    → b < 256
    → c < 256
    → d < 256
    → put_uint32 (a * 16777216 + b * 65536 + c * 256 + d) ≡ a ∷ b ∷ c ∷ d ∷ []
unfolding put_uint32
put_uint32-uint32 a b c d ha hb hc hd =
    let n = a * 16777216 + b * 65536 + c * 256 + d in
    let e1 : (n / 16777216) % 256 ≡ a = omega arith in
    let e2 : (n / 65536) % 256 ≡ b = omega arith in
    let e3 : (n / 256) % 256 ≡ c = omega arith in
    let e4 : n % 256 ≡ d = omega arith in rw (e1, e2, e3, e4) refl

blob_parts :
    (h : Header) (mem iters : Bytes)
    → put_uint32 h.mem_kib ≡ mem
    → put_uint32 h.iterations ≡ iters
    → blob h
      ≡ file_magic
        ++ (1 ∷ 1 ∷ (mem ++ (iters ++ (h.threads ∷ (h.salt ++ (h.nonce ++ h.ciphertext))))))
unfolding blob
blob_parts h mem iters e f = rw (← e, ← f) refl

blob-header_of :
    (raw : Bytes)
    → AreBytes raw
    → 43 ≤ length raw
    → take 4 raw ≡ file_magic
    → byte_at raw 4 ≡ 1
    → byte_at raw 5 ≡ 1
    → blob (header_of raw) ≡ raw
unfolding uint32_at
blob-header_of raw all long magic version kdf =
    let at = λ (i : ℕ). byte_at-lt raw i all in
    let parts =
      blob_parts (header_of raw) _ _ (put_uint32-uint32 _ _ _ _ (at 6) (at 7) (at 8) (at 9))
        (put_uint32-uint32 _ _ _ _ (at 10) (at 11) (at 12) (at 13)) in
    let whole : raw ≡ _ =
      take-drop 4 raw ∙ rw (fixed_bytes raw _ long (sealed_bytes raw), magic, version, kdf) refl in
    parts ∙ sym whole

-- What the four checks have let through.
parse-inr :
    (raw : Bytes) (h : Header)
    → parse raw ≡ inr h
    → (43 ≤ length raw)
      × (take 4 raw ≡ file_magic)
      × (byte_at raw 4 ≡ 1)
      × (byte_at raw 5 ≡ 1)
      × (header_of raw ≡ h)
unfolding parse
parse-inr raw h e = elim (Bool-cases (ltb (length raw) 43)) [
  | inl short ↦ let h = rw short at e in cc
  | inr long ↦ elim (Bool-cases (same_bytes (take 4 raw) file_magic)) [
    | inr other ↦ let h = rw (long, other) at e in cc
    | inl magic ↦ elim (Bool-cases (eqb (byte_at raw 4) 1)) [
      | inr newer ↦ let h = rw (long, magic, newer) at e in cc
      | inl version ↦ elim (Bool-cases (eqb (byte_at raw 5) 1)) [
        | inr unknown ↦ let h = rw (long, magic, version, unknown) at e in cc
        | inl kdf ↦
            let read = rw (long, magic, version, kdf) at e in
            (
              ground arith,
              same_bytes-eq (take 4 raw) file_magic magic,
              (eqb_iff (byte_at raw 4) 1).0 version,
              (eqb_iff (byte_at raw 5) 1).0 kdf,
              cc,
            )
      ]
    ]
  ]
]

-- The bytes that `Open` accepts the header of are those that `Save` writes for what it reads.
pub blob-parse : (raw : Bytes) (h : Header) → AreBytes raw → parse raw ≡ inr h → blob h ≡ raw
blob-parse raw h all e =
    let (long, magic, version, kdf, read) = parse-inr raw h e in
    sym (ap blob read) ∙ blob-header_of raw all long magic version kdf
