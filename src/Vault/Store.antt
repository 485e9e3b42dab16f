-- ===== src/Vault/Store.antt =====
-- vault/vault.go: an unlocked vault, and the calls that read, change, save and open it.
use utilities.Base.{
  ℕ, ◌*◌, ◌≤◌, String, Bool, true, false, Option, none, some, List, [], Dict, lookup, insert,
  delete, string_keyed, map, ◌==◌, sort_by, if◌then◌else◌, ◌⊎◌, inl, inr, ◌≡◌,
}
use Prim.Native.String.{compare}
use Prim.Native.Nat.{Ordering}
use utilities.Vault.Format.{Bytes, HeaderError, parse, blob, file_magic}

-- The JSON that a file holds under its encryption.
pub record Payload : Type 0 where
  pub version : ℕ
  pub created : ℕ
  pub updated : ℕ
  pub secrets : Dict String String

-- A passphrase is its bytes, of which a closed vault has none.
pub record Vault : Type 0 where
  pub path : String
  pub pass : Bytes
  pub secrets : Dict String String
  pub created : ℕ
  pub updated : ℕ
  pub mem_kib : ℕ
  pub iterations : ℕ
  pub threads : ℕ

-- The calls of a save that can fail on the disk.
pub data DiskStep : Type 0 where
  mkdir : DiskStep
  open_tmp : DiskStep
  write : DiskStep
  fsync : DiskStep
  close : DiskStep
  rename : DiskStep

pub data VaultError : Type 0 where
  bad_header : HeaderError → VaultError
  wrong_pass : VaultError
  empty_pass : VaultError
  no_path : VaultError
  already_exists : VaultError
  not_read : VaultError
  malformed : VaultError
  not_marshalled : VaultError
  no_salt : VaultError
  no_nonce : VaultError
  no_cipher : VaultError
  not_written : DiskStep → VaultError
  empty_ref : VaultError
  empty_secret : VaultError
  -- `argon2.IDKey` panics
  panicked : VaultError

-- What the vault takes from argon2, chacha20poly1305 and encoding/json. A call of `IDKey` that
-- panics is `none`; it needs a round and a thread. `New` takes the keys of 32 bytes that it makes.
pub record Crypto : Type 1 where
  pub Aead : Type 0
  pub id_key : Bytes → Bytes → ℕ → ℕ → ℕ → Option Bytes
  pub new : Bytes → Option Aead
  pub seal : Aead → Bytes → Bytes → Bytes → Bytes
  pub open_sealed : Aead → Bytes → Bytes → Bytes → Option Bytes
  pub marshal : Payload → Option Bytes
  pub unmarshal : Bytes → Option Payload

pub record IsCrypto (C : Crypto) : Type 0 where
  pub id_key-runs :
      (pass salt : Bytes) (time memory threads : ℕ)
      → 1 ≤ time
      → 1 ≤ threads
      → (key : Bytes) × (C.id_key pass salt time memory threads ≡ some key)
  pub new-id_key :
      (pass salt key : Bytes) (time memory threads : ℕ)
      → C.id_key pass salt time memory threads ≡ some key
      → (aead : C.Aead) × (C.new key ≡ some aead)
  pub open-seal :
      (aead : C.Aead) (nonce plain extra : Bytes)
      → C.open_sealed aead nonce (C.seal aead nonce plain extra) extra ≡ some plain
  -- The entries of a JSON object may come back in another order.
  pub unmarshal-marshal :
      (p : Payload) (text : Bytes)
      → C.marshal p ≡ some text
      → (q : Payload) × (C.unmarshal text ≡ some q)
        × (q.created ≡ p.created)
        × (q.updated ≡ p.updated)
        × ((ref : String) → lookup ref q.secrets ≡ lookup ref p.secrets)

-- The files of a disk. A call that can fail says whether it worked.
pub record Disk : Type 1 where
  pub Files : Type 0
  pub read_file : Files → String → Option Bytes
  pub stat : Files → String → Bool
  -- the directory of a path, with those above it
  pub mkdir_all : Files → String → Files × Bool
  pub open_truncated : Files → String → Files × Bool
  pub write : Files → String → Bytes → Files × Bool
  pub sync : Files → String → Files × Bool
  pub close : Files → String → Files × Bool
  pub rename : Files → String → String → Files × Bool
  pub remove : Files → String → Files

-- What `rand.Reader` gives for a salt and a nonce, if it does.
pub record Random : Type 0 where
  pub salt : Option Bytes
  pub nonce : Option Bytes

abbrev pub default_mem_kib : ℕ
default_mem_kib = 64 * 1024

abbrev pub default_iterations : ℕ
default_iterations = 3

abbrev pub default_threads : ℕ
default_threads = 4

abbrev pub is_empty : Bytes → Bool
is_empty [] = true
is_empty _ = false

unfoldable pub get : Vault → String → Option String
get v ref = lookup ref v.secrets

unfoldable pub set_secret : Vault → String → String → Vault × Option VaultError
unfolding insert
set_secret v ref secret =
    if ref == ""
    then (v, some empty_ref)
    else if secret == ""
    then (v, some empty_secret)
    else (record v { secrets = insert ref secret v.secrets }, none)

unfoldable pub delete_secret : Vault → String → Vault
delete_secret v ref = record v { secrets = delete ref v.secrets }

abbrev pub text_less : String → String → Bool
text_less s t = elim (compare s t) [ Ordering.lt ↦ true | _ ↦ false ]

unfoldable pub list_refs : Vault → List String
unfolding sort_by
list_refs v = sort_by text_less (map (λ e. e.0) v.secrets)

-- `Close`
unfoldable pub close_vault : Vault → Vault
close_vault v = record v { pass = []; secrets = [] }

-- The bytes of a save, from the state that it saves.
module _ (C : Crypto) where
  unfoldable pub encrypt : Vault → Random → VaultError ⊎ Bytes
  unfolding blob
  encrypt v random =
      elim (C.marshal
        (record { version = 1; created = v.created; updated = v.updated; secrets = v.secrets })) [
          | none ↦ inl not_marshalled
          | some plain ↦ elim random.salt [
            | none ↦ inl no_salt
            | some salt ↦ elim random.nonce [
              | none ↦ inl no_nonce
              | some nonce ↦ elim (C.id_key v.pass salt v.iterations v.mem_kib v.threads) [
                | none ↦ inl panicked
                | some key ↦ elim (C.new key) [
                  | none ↦ inl no_cipher
                  | some aead ↦ inr (
                      blob (record {
                        mem_kib = v.mem_kib;
                        iterations = v.iterations;
                        threads = v.threads;
                        salt = salt;
                        nonce = nonce;
                        ciphertext = C.seal aead nonce plain file_magic;
                      }))
                ]
              ]
            ]
          ]
        ]

  -- `Open`, on the bytes of the file
  unfoldable pub decrypt : String → Bytes → Bytes → VaultError ⊎ Vault
  unfolding parse
  decrypt path pass raw = elim (parse raw) [
    | inl e ↦ inl (bad_header e)
    | inr h ↦ elim (C.id_key pass h.salt h.iterations h.mem_kib h.threads) [
      | none ↦ inl panicked
      | some key ↦ elim (C.new key) [
        | none ↦ inl no_cipher
        | some aead ↦ elim (C.open_sealed aead h.nonce h.ciphertext file_magic) [
          | none ↦ inl wrong_pass
          | some plain ↦ elim (C.unmarshal plain) [
            | none ↦ inl malformed
            | some p ↦ inr (record {
              path = path;
              pass = pass;
              secrets = p.secrets;
              created = p.created;
              updated = p.updated;
              mem_kib = h.mem_kib;
              iterations = h.iterations;
              threads = h.threads;
            })
          ]
        ]
      ]
    ]
  ]
