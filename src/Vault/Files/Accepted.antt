-- ===== src/Vault/Files/Accepted.antt =====
-- vault/vault.go: the files that `Open` accepts, and the saves that work.
use utilities.Base.{
  String, true, some, Option-cases, ◌≡◌, refl, sym, ap, subst, ◌∙◌, inl, inr, string_keyed,
  Sum-cases,
}
use utilities.Vault.Format.{Bytes, Header, file_magic, blob, parse}
use utilities.Vault.Format.RoundTrip.{AreBytes, blob-parse}
use utilities.Vault.Store.{Vault, Payload, Crypto, Disk, decrypt}
use utilities.Vault.Files.{tmp_of}

module _ (C : Crypto) where
  -- The bytes are a header with the parameters of this vault, a salt and a nonce, and the sealing,
  -- under the key that its passphrase gives, of a text that JSON reads as its secrets and times.
  pub record IsSealed (u : Vault) (raw : Bytes) : Type 0 where
    pub salt : Bytes
    pub nonce : Bytes
    pub key : Bytes
    pub aead : C.Aead
    pub plain : Bytes
    pub payload : Payload
    pub is_key : C.id_key u.pass salt u.iterations u.mem_kib u.threads ≡ some key
    pub is_aead : C.new key ≡ some aead
    pub is_payload : C.unmarshal plain ≡ some payload
    pub is_raw :
        raw
        ≡ blob (record {
          mem_kib = u.mem_kib;
          iterations = u.iterations;
          threads = u.threads;
          salt = salt;
          nonce = nonce;
          ciphertext = C.seal aead nonce plain file_magic;
        })
    pub secrets : u.secrets ≡ payload.secrets
    pub created : u.created ≡ payload.created
    pub updated : u.updated ≡ payload.updated

  abbrev vault_of : String → Bytes → Header → Payload → Vault
  vault_of path pass h p = record {
    path = path;
    pass = pass;
    secrets = p.secrets;
    created = p.created;
    updated = p.updated;
    mem_kib = h.mem_kib;
    iterations = h.iterations;
    threads = h.threads;
  }

  -- Where only what was sealed opens, a file that `Open` accepts has no other bytes than a magic,
  -- the parameters of the opened vault, a salt, a nonce and the sealing, under the key that the
  -- passphrase of that vault gives with them, of a text that JSON reads as its secrets and times.
  pub decrypt-IsSealed :
      ((aead : C.Aead) (nonce ciphertext plain extra : Bytes)
        → C.open_sealed aead nonce ciphertext extra ≡ some plain
        → ciphertext ≡ C.seal aead nonce plain extra)
      → (path : String) (pass raw : Bytes) (u : Vault) → AreBytes raw
      → decrypt C path pass raw ≡ inr u
      → IsSealed u raw
  unfolding decrypt
  decrypt-IsSealed exact path pass raw u all e = elim (Sum-cases (parse raw)) [
    | inl (bad, refused) ↦ let wrong = rw (decrypt, refused) at e in cc
    | inr (h, parsed) ↦
        elim (Option-cases (C.id_key pass h.salt h.iterations h.mem_kib h.threads)) [
          | inl panics ↦ let wrong = rw (decrypt, parsed, panics) at e in cc
          | inr (key, is_key) ↦ elim (Option-cases (C.new key)) [
            | inl refused ↦ let wrong = rw (decrypt, parsed, is_key, refused) at e in cc
            | inr (aead, is_aead) ↦
                elim (Option-cases (C.open_sealed aead h.nonce h.ciphertext file_magic)) [
                  | inl refused ↦
                      let wrong = rw (decrypt, parsed, is_key, is_aead, refused) at e in cc
                  | inr (plain, opened) ↦ elim (Option-cases (C.unmarshal plain)) [
                    | inl refused ↦
                        let wrong = rw (decrypt, parsed, is_key, is_aead, opened, refused) at e in
                        cc
                    | inr (p, read) ↦
                        let made = rw (decrypt, parsed, is_key, is_aead, opened, read) at e in
                        let this : vault_of path pass h p ≡ u = cc in
                        subst (λ w. IsSealed w raw) this
                          (record {
                            salt = h.salt;
                            nonce = h.nonce;
                            key = key;
                            aead = aead;
                            plain = plain;
                            payload = p;
                            is_key = is_key;
                            is_aead = is_aead;
                            is_payload = read;
                            is_raw =
                                sym (blob-parse raw h all parsed)
                                ∙ ap (λ c. blob (record h { ciphertext = c }))
                                    (exact aead h.nonce h.ciphertext plain file_magic opened);
                            secrets = refl;
                            created = refl;
                            updated = refl;
                          })
                  ]
                ]
          ]
        ]
  ]

-- A disk with room on it: a file can be opened where its directory was made, and a file that is
-- there can be written, synced, closed and renamed.
abbrev pub IsWorking : Disk → Type 0
IsWorking D =
    ((f : D.Files) (p : String) → (D.mkdir_all f p).1 ≡ true)
    × ((f : D.Files) (p : String) → (D.open_truncated (D.mkdir_all f p).0 (tmp_of p)).1 ≡ true)
    × ((f : D.Files) (p : String) (old out : Bytes)
        → D.read_file f p ≡ some old
        → (D.write f p out).1 ≡ true)
    × ((f : D.Files) (p : String) (old : Bytes)
        → D.read_file f p ≡ some old
        → (D.sync f p).1 ≡ true)
    × ((f : D.Files) (p : String) (old : Bytes)
        → D.read_file f p ≡ some old
        → (D.close f p).1 ≡ true)
    × ((f : D.Files) (p q : String) (old : Bytes)
        → D.read_file f p ≡ some old
        → (D.rename f p q).1 ≡ true)
