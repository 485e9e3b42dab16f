-- ===== src/Vault/Tests/Sample.antt =====
-- A small library and a disk in memory, with which the theorems on the vault are tried.
use utilities.Base.{
  ℕ, ◌+◌, String, true, false, ◌&&◌, Bool-cases, Option, none, some, Option-cases, inl, inr, [],
  ◌∷◌, ◌++◌, ◌≡◌, ◌≢◌, refl, sym, ap, ◌∙◌, Dict, lookup, insert, delete, has, lookup-insert,
  lookup-delete, string_keyed, same_refl, ◌==◌, eqb, eqb_iff, leb, leb_iff, if◌then◌else◌,
  replicate, length,
}
use utilities.Vault.Format.{Bytes}
use utilities.Vault.Store.{Vault, Payload, Crypto, IsCrypto, Disk, Random}
use utilities.Vault.Files.Accepted.{IsWorking}
use utilities.Vault.Files.Atomic.{IsDisk}
use utilities.Vault.Files.Opened.{IsFilled}

abbrev pub sum_of : Bytes → ℕ
sum_of [] = 0
sum_of (b ∷ bs) = b + sum_of bs

-- Payloads without a secret, or with one that is known.
abbrev pub marshal_small : Payload → Option Bytes
marshal_small p = elim p.secrets [
  | [] ↦ some (p.created ∷ p.updated ∷ [])
  | (ref, secret) ∷ rest ↦ elim rest [
    | [] ↦
        if ref == "smtp" && secret == "hunter2" then some (p.created ∷ p.updated ∷ 1 ∷ []) else none
    | _ ∷ _ ↦ none
  ]
]

abbrev pub unmarshal_small : Bytes → Option Payload
unmarshal_small (c ∷ u ∷ []) = some (record { version = 1; created = c; updated = u; secrets = [] })
unmarshal_small (c ∷ u ∷ k ∷ []) =
    some (record { version = 1; created = c; updated = u; secrets = ("smtp", "hunter2") ∷ [] })
unmarshal_small _ = none

abbrev pub open_small : Bytes → Bytes → Bytes → Bytes → Option Bytes
open_small key nonce [] extra = none
open_small key nonce (tag ∷ plain) extra = if eqb tag (sum_of key) then some plain else none

abbrev pub small : Crypto
small = record {
  Aead = Bytes;
  id_key = λ pass salt time memory threads.
      if leb 1 time && leb 1 threads then some (pass ++ salt) else none;
  new = some;
  seal = λ key nonce plain extra. sum_of key ∷ plain;
  open_sealed = open_small;
  marshal = marshal_small;
  unmarshal = unmarshal_small;
}

pub small-exact :
    (key nonce ciphertext plain extra : Bytes)
    → open_small key nonce ciphertext extra ≡ some plain
    → ciphertext ≡ sum_of key ∷ plain
small-exact key nonce [] plain extra h = cc
small-exact key nonce (tag ∷ text) plain extra h = elim (Bool-cases (eqb tag (sum_of key))) [
  | inr other ↦ let wrong = rw other at h in cc
  | inl same ↦ let tags = (eqb_iff tag (sum_of key)).0 same in let texts = rw same at h in cc
]

-- What is read back from the text of a payload.
abbrev IsReadBack : Payload → Bytes → Type 0
IsReadBack p text =
    (q : Payload) × (unmarshal_small text ≡ some q)
    × (q.created ≡ p.created)
    × (q.updated ≡ p.updated)
    × ((ref : String) → lookup ref q.secrets ≡ lookup ref p.secrets)

one_secret :
    (p : Payload) (ref secret : String) (text : Bytes)
    → p.secrets ≡ (ref, secret) ∷ []
    → marshal_small p ≡ some text
    → IsReadBack p text
one_secret p ref secret text held h = elim (Bool-cases (ref == "smtp")) [
  | inr other ↦ let wrong = rw (held, other) at h in cc
  | inl smtp ↦ elim (Bool-cases (secret == "hunter2")) [
    | inr other ↦ let wrong = rw (held, smtp, other) at h in cc
    | inl known ↦
        let made = rw (held, smtp, known) at h in
        let printed : p.created ∷ p.updated ∷ 1 ∷ [] ≡ text = cc in
        let same : ("smtp", "hunter2") ∷ [] ≡ p.secrets =
          rw
            (
              (string_keyed.same_iff ref "smtp").0 smtp,
              (string_keyed.same_iff secret "hunter2").0 known,
            )
            at (sym held) in
        (
          record {
            version = 1;
            created = p.created;
            updated = p.updated;
            secrets = ("smtp", "hunter2") ∷ [];
          },
          ap unmarshal_small (sym printed),
          refl,
          refl,
          λ r. ap (lookup r) same,
        )
  ]
]

unmarshal-marshal_small :
    (p : Payload) (text : Bytes) → marshal_small p ≡ some text → IsReadBack p text
unmarshal-marshal_small p text h = of_secrets p.secrets refl
  where
    of_secrets : (secrets : Dict String String) → p.secrets ≡ secrets → IsReadBack p text
    of_secrets [] held =
        let made = rw held at h in
        let printed : p.created ∷ p.updated ∷ [] ≡ text = cc in
        (
          record p { version = 1; secrets = [] },
          ap unmarshal_small (sym printed),
          refl,
          refl,
          λ r. ap (lookup r) (sym held),
        )
    of_secrets ((ref, secret) ∷ []) held = one_secret p ref secret text held h
    of_secrets (e ∷ f ∷ rest) held = let wrong = rw held at h in cc

pub small-IsCrypto : IsCrypto small
small-IsCrypto = record {
  id_key-runs = λ pass salt time memory threads rounds lanes.
      (pass ++ salt, rw ((leb_iff 1 time).1 rounds, (leb_iff 1 threads).1 lanes) refl);
  new-id_key = λ pass salt key time memory threads e. (key, refl);
  open-seal = λ key nonce plain extra. rw ((eqb_iff (sum_of key) (sum_of key)).1 refl) refl;
  unmarshal-marshal = unmarshal-marshal_small;
}

abbrev pub in_memory : Disk
in_memory = record {
  Files = Dict String Bytes;
  read_file = λ f p. lookup p f;
  stat = λ f p. has p f;
  mkdir_all = λ f p. (f, true);
  open_truncated = λ f p. (insert p [] f, true);
  write = λ f p out. (insert p (elim (lookup p f) [ none ↦ out | some old ↦ old ++ out ]) f, true);
  sync = λ f p. (f, true);
  close = λ f p. (f, true);
  rename =
      λ f p q. elim (lookup p f) [ none ↦ (f, false) | some b ↦ (insert q b (delete p f), true) ];
  remove = λ f p. delete p f;
}

differ : (p q : String) → p ≢ q → (p == q) ≡ false
differ p q h = elim (Bool-cases (p == q)) [
  | inr e ↦ e
  | inl e ↦ absurd (h ((string_keyed.same_iff p q).0 e))
]

lookup-insert_self :
    (p : String) (b : Bytes) (f : Dict String Bytes) → lookup p (insert p b f) ≡ some b
lookup-insert_self p b f = lookup-insert p p b f ∙ rw (same_refl p) refl

lookup-insert_other :
    (p q : String) (b : Bytes) (f : Dict String Bytes)
    → p ≢ q
    → lookup q (insert p b f) ≡ lookup q f
lookup-insert_other p q b f h = lookup-insert p q b f ∙ rw (differ p q h) refl

pub in_memory-IsDisk : IsDisk in_memory
in_memory-IsDisk = record {
  mkdir_all-read = λ f p q. refl;
  open-other = λ f p q h. lookup-insert_other p q [] f h;
  open-empty = λ f p e. lookup-insert_self p [] f;
  write-other = λ f p q out h. lookup-insert_other p q _ f h;
  write-added = λ f p old out e ok. rw e (lookup-insert_self p (old ++ out) f);
  sync-read = λ f p q. refl;
  close-read = λ f p q. refl;
  remove-other = λ f p q h. lookup-delete p q f ∙ rw (differ p q h) refl;
  rename-moved = λ f p q ok. elim (Option-cases (lookup p f)) [
    | inl missing ↦ let wrong = rw (in_memory, missing) at ok in cc
    | inr (b, found) ↦ rw (in_memory, found) (lookup-insert_self q b (delete p f))
  ];
  rename-failed = λ f p q r bad. elim (Option-cases (lookup p f)) [
    | inl missing ↦ rw (in_memory, missing) refl
    | inr (b, found) ↦ let wrong = rw (in_memory, found) at bad in cc
  ];
}

pub in_memory-IsWorking : IsWorking in_memory
in_memory-IsWorking = (
  λ f p. refl,
  λ f p. refl,
  λ f p old out found. refl,
  λ f p old found. refl,
  λ f p old found. refl,
  λ f p q old found. rw (in_memory, found) refl,
)

abbrev pub random : Random
random = record { salt = some (replicate 16 7); nonce = some (replicate 12 9) }

-- A vault with one secret, and its passphrase "pw".
abbrev pub holding : Vault
holding = record {
  path = "v.bin";
  pass = 112 ∷ 119 ∷ [];
  secrets = ("smtp", "hunter2") ∷ [];
  created = 5;
  updated = 5;
  mem_kib = 65536;
  iterations = 3;
  threads = 4;
}

pub random-IsFilled : IsFilled random
random-IsFilled = (
  λ salt e. let same : replicate 16 7 ≡ salt = cc in ap length (sym same),
  λ nonce e. let same : replicate 12 9 ≡ nonce = cc in ap length (sym same),
)
