-- ===== src/Vault/Format.antt =====
-- vault/vault.go: the bytes of a vault file, its header and the ciphertext.
pub mod RoundTrip
use utilities.Base.{
  ℕ, ◌+◌, ◌*◌, ◌/◌, ◌%◌, Bool, true, false, not, ◌&&◌, List, [], ◌∷◌, ◌++◌, Option, none, some,
  get_elem?, length, take, drop, ltb, eqb, if◌then◌else◌, ◌⊎◌, inl, inr,
}

-- A byte is a number below 256.
abbrev pub Bytes : Type 0
Bytes = List ℕ

-- What `Open` refuses in a file before it derives a key.
pub data HeaderError : Type 0 where
  short_header : HeaderError
  bad_magic : HeaderError
  unknown_version : HeaderError
  unknown_kdf : HeaderError

pub record Header : Type 0 where
  pub mem_kib : ℕ
  pub iterations : ℕ
  pub threads : ℕ
  pub salt : Bytes
  pub nonce : Bytes
  pub ciphertext : Bytes

-- "SLTV"
abbrev pub file_magic : Bytes
file_magic = 83 ∷ 76 ∷ 84 ∷ 86 ∷ []

abbrev pub file_version : ℕ
file_version = 1

abbrev pub kdf_argon2id : ℕ
kdf_argon2id = 1

abbrev pub salt_size : ℕ
salt_size = 16

abbrev pub nonce_size : ℕ
nonce_size = 12

-- `len(raw) < 4+1+1+4+4+1+saltSize+NonceSize`
abbrev pub header_size : ℕ
header_size = 43

-- `binary.BigEndian.PutUint32`
unfoldable pub put_uint32 : ℕ → Bytes
put_uint32 n = (n / 16777216) % 256 ∷ (n / 65536) % 256 ∷ (n / 256) % 256 ∷ n % 256 ∷ []

-- `raw[i]`, of an index that the length check has allowed
abbrev pub byte_at : Bytes → ℕ → ℕ
byte_at raw i = elim (get_elem? raw i) [ none ↦ 0 | some b ↦ b ]

-- `binary.BigEndian.Uint32(raw[i : i+4])`
unfoldable pub uint32_at : Bytes → ℕ → ℕ
uint32_at raw i =
    byte_at raw i * 16777216
    + byte_at raw (i + 1) * 65536
    + byte_at raw (i + 2) * 256
    + byte_at raw (i + 3)

-- `subtle.ConstantTimeCompare`
unfoldable pub same_bytes : Bytes → Bytes → Bool
same_bytes [] [] = true
same_bytes (x ∷ xs) (y ∷ ys) = eqb x y && same_bytes xs ys
same_bytes _ _ = false

abbrev pub header_of : Bytes → Header
header_of raw = record {
  mem_kib = uint32_at raw 6;
  iterations = uint32_at raw 10;
  threads = byte_at raw 14;
  salt = take salt_size (drop 15 raw);
  nonce = take nonce_size (drop 31 raw);
  ciphertext = drop 43 raw;
}

-- The checks of `Open` on the bytes, in their order.
unfoldable pub parse : Bytes → HeaderError ⊎ Header
unfolding uint32_at same_bytes
parse raw =
    if ltb (length raw) header_size
    then inl short_header
    else if not (same_bytes (take 4 raw) file_magic)
    then inl bad_magic
    else if not (eqb (byte_at raw 4) file_version)
    then inl unknown_version
    else if not (eqb (byte_at raw 5) kdf_argon2id)
    then inl unknown_kdf
    else inr (header_of raw)

-- The blob that `Save` builds.
unfoldable pub blob : Header → Bytes
unfolding put_uint32
blob h =
    file_magic
    ++ (file_version
        ∷ kdf_argon2id
        ∷ (put_uint32 h.mem_kib
            ++ (put_uint32 h.iterations ++ (h.threads ∷ (h.salt ++ (h.nonce ++ h.ciphertext))))))
