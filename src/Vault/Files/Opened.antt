-- ===== src/Vault/Files/Opened.antt =====
-- vault/vault.go: what an `Open` finds after a `Save`, a `ChangePassphrase` and a `Close`.
use utilities.Base.{
  ℕ, ◌<◌, String, false, Bool-cases, Option, none, some, Option-cases, length, ◌≡◌, refl, ◌∙◌, inl,
  inr, string_keyed, ◌==◌, Sum-cases,
}
use utilities.Vault.Format.{Bytes, Header, file_magic, blob}
use utilities.Vault.Format.RoundTrip.{parse-blob}
use utilities.Vault.Store.{
  Vault, Payload, Crypto, IsCrypto, Disk, Random, DiskStep, encrypt, decrypt, is_empty, get,
}
use utilities.Vault.Files.{write_atomic, written, save, open_vault}
use utilities.Vault.Files.Atomic.{IsDisk, IsReplaced, write_atomic-IsReplaced}

-- The same secrets, the same instant of creation, the parameters of the key and the place.
pub record IsCopy (v u : Vault) : Type 0 where
  pub secrets : (ref : String) → get u ref ≡ get v ref
  pub created : u.created ≡ v.created
  pub updated : u.updated ≡ v.updated
  pub path : u.path ≡ v.path
  pub pass : u.pass ≡ v.pass
  pub mem_kib : u.mem_kib ≡ v.mem_kib
  pub iterations : u.iterations ≡ v.iterations
  pub threads : u.threads ≡ v.threads

-- `ReadFull` fills the buffers.
abbrev pub IsFilled : Random → Type 0
IsFilled random =
    ((salt : Bytes) → random.salt ≡ some salt → length salt ≡ 16)
    × ((nonce : Bytes) → random.nonce ≡ some nonce → length nonce ≡ 12)

-- The parameters of the key are a `uint32` each.
abbrev pub IsUint32 : Vault → Type 0
IsUint32 v = (v.mem_kib < 4294967296) × (v.iterations < 4294967296)

abbrev payload_of : Vault → Payload
payload_of v = record { version = 1; created = v.created; updated = v.updated; secrets = v.secrets }

abbrev header_for : Vault → Bytes → Bytes → Bytes → Header
header_for v salt nonce ciphertext = record {
  mem_kib = v.mem_kib;
  iterations = v.iterations;
  threads = v.threads;
  salt = salt;
  nonce = nonce;
  ciphertext = ciphertext;
}

module _ (C : Crypto) where
  -- The values that a save has computed when it has a blob.
  record Sealing (v : Vault) (random : Random) (out : Bytes) : Type 0 where
    plain : Bytes
    salt : Bytes
    nonce : Bytes
    key : Bytes
    aead : C.Aead
    is_plain : C.marshal (payload_of v) ≡ some plain
    is_salt : random.salt ≡ some salt
    is_nonce : random.nonce ≡ some nonce
    is_key : C.id_key v.pass salt v.iterations v.mem_kib v.threads ≡ some key
    is_aead : C.new key ≡ some aead
    is_out : blob (header_for v salt nonce (C.seal aead nonce plain file_magic)) ≡ out

  encrypt-Sealing :
      (v : Vault) (random : Random) (out : Bytes)
      → encrypt C v random ≡ inr out
      → Sealing v random out
  unfolding encrypt
  encrypt-Sealing v random out e = elim (Option-cases (C.marshal (payload_of v))) [
    | inl no_text ↦ let wrong = rw (encrypt, no_text) at e in cc
    | inr (plain, is_plain) ↦ elim (Option-cases random.salt) [
      | inl none_made ↦ let wrong = rw (encrypt, is_plain, none_made) at e in cc
      | inr (salt, is_salt) ↦ elim (Option-cases random.nonce) [
        | inl none_made ↦ let wrong = rw (encrypt, is_plain, is_salt, none_made) at e in cc
        | inr (nonce, is_nonce) ↦
            elim (Option-cases (C.id_key v.pass salt v.iterations v.mem_kib v.threads)) [
              | inl panics ↦
                  let wrong = rw (encrypt, is_plain, is_salt, is_nonce, panics) at e in cc
              | inr (key, is_key) ↦ elim (Option-cases (C.new key)) [
                | inl refused ↦
                    let wrong = rw (encrypt, is_plain, is_salt, is_nonce, is_key, refused) at e in
                    cc
                | inr (aead, is_aead) ↦
                    let made = rw (encrypt, is_plain, is_salt, is_nonce, is_key, is_aead) at e in
                    record {
                      plain = plain;
                      salt = salt;
                      nonce = nonce;
                      key = key;
                      aead = aead;
                      is_plain = is_plain;
                      is_salt = is_salt;
                      is_nonce = is_nonce;
                      is_key = is_key;
                      is_aead = is_aead;
                      is_out = cc;
                    }
              ]
            ]
      ]
    ]
  ]

  decrypt-encrypt :
      IsCrypto C
      → (v : Vault) (random : Random) (out : Bytes) → IsUint32 v
      → IsFilled random
      → encrypt C v random ≡ inr out
      → (u : Vault) × (decrypt C v.path v.pass out ≡ inr u) × IsCopy v u
  unfolding decrypt get
  decrypt-encrypt laws v random out (mem, iters) (salts, nonces) e =
      let s = encrypt-Sealing v random out e in
      let ciphertext = C.seal s.aead s.nonce s.plain file_magic in
      let (q, read, created, updated, same) =
        laws.unmarshal-marshal (payload_of v) s.plain s.is_plain in
      let parsed =
        parse-blob (header_for v s.salt s.nonce ciphertext)
          (mem, iters, salts s.salt s.is_salt, nonces s.nonce s.is_nonce) in
      let u : Vault = record v { secrets = q.secrets; created = q.created; updated = q.updated } in
      (
        u,
        rw
            (
              ← s.is_out,
              decrypt,
              parsed,
              s.is_key,
              s.is_aead,
              laws.open-seal s.aead s.nonce s.plain file_magic,
              read,
            )
            refl,
        record {
          secrets = same;
          created = created;
          updated = updated;
          path = refl;
          pass = refl;
          mem_kib = refl;
          iterations = refl;
          threads = refl;
        },
      )

module _ (C : Crypto) (D : Disk) (files : D.Files) where
  is_written :
      (L : IsDisk D) (v : Vault) (path : String) (out : Bytes) (w : D.Files × Option DiskStep)
      → IsReplaced D L files path out w
      → (written D v w).2 ≡ none
      → D.read_file (written D v w).0 path ≡ some out
  is_written L v path out (after, none) replaced e = replaced
  is_written L v path out (after, some step) replaced e = cc

  open_vault-decrypt :
      (path : String) (pass raw : Bytes)
      → is_empty pass ≡ false
      → D.read_file files path ≡ some raw
      → open_vault C D files path pass ≡ decrypt C path pass raw
  unfolding open_vault
  open_vault-decrypt path pass raw given read = rw (given, read) refl

module _ (C : Crypto) (D : Disk) (laws : IsCrypto C) (L : IsDisk D) where
  -- Where opening undoes sealing, JSON reads back what it writes and a call of the disk touches
  -- the file that it names: after a save with full buffers of random bytes that reports no error,
  -- an `Open` of the file with the passphrase gives a vault with the secrets, the parameters and
  -- the creation time of the one that was saved, and the time of the save.
  pub open-save :
      (files : D.Files) (v : Vault) (now : ℕ) (random : Random)
      → IsUint32 v
      → IsFilled random
      → (save C D files v now random).2 ≡ none
      → (u : Vault) × (open_vault C D (save C D files v now random).0 v.path v.pass ≡ inr u)
        × IsCopy (record v { updated = now }) u
  unfolding save
  open-save files v now random sizes filled works = elim (Bool-cases (v.path == "")) [
    | inl pathless ↦ let wrong = rw (save, pathless) at works in cc
    | inr placed ↦ elim (Bool-cases (is_empty v.pass)) [
      | inl closed ↦ let wrong = rw (save, placed, closed) at works in cc
      | inr given ↦ elim (Sum-cases (encrypt C (record v { updated = now }) random)) [
        | inl (e, failed) ↦ let wrong = rw (save, placed, given, failed) at works in cc
        | inr (out, made) ↦
            let stamped : Vault = record v { updated = now } in
            let (u, opened, copy) = decrypt-encrypt C laws stamped random out sizes filled made in
            let after = written D stamped (write_atomic D files v.path out) in
            let on_disk =
              is_written C D files L stamped v.path out (write_atomic D files v.path out)
                (write_atomic-IsReplaced D L files v.path out)
                (rw (save, placed, given, made) at works) in
            let result : save C D files v now random ≡ after =
              rw (save, placed, given, made) refl in
            (
              u,
              rw result (open_vault-decrypt C D after.0 v.path v.pass out given on_disk ∙ opened),
              copy,
            )
      ]
    ]
  ]
