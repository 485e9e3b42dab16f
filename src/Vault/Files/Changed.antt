-- ===== src/Vault/Files/Changed.antt =====
-- vault/vault.go: a save that fails, one that cannot fail, and the passphrase of a vault that changes.
use utilities.Base.{
  ◌⊎◌, ℕ, String, Bool-cases, Option, none, some, ◌≡◌, ◌≢◌, refl, inl, inr, lookup, string_keyed,
  ◌==◌, Sum-cases,
}
use utilities.Vault.Format.{Bytes}
use utilities.Vault.Store.{
  Vault, VaultError, DiskStep, Crypto, IsCrypto, Disk, Random, encrypt, is_empty, get, close_vault,
}
use utilities.Vault.Files.{write_atomic, written, save, open_vault, change_passphrase}
use utilities.Vault.Files.Atomic.{IsDisk, IsReplaced, write_atomic-IsReplaced}
use utilities.Vault.Files.Opened.{IsCopy, IsFilled, IsUint32, open-save}

module _ (C : Crypto) (D : Disk) (L : IsDisk D) (files : D.Files) where
  -- A save has worked or has left the file alone, and the state in memory is what it was, except
  -- for the time stamp.
  abbrev pub IsUntouched : Vault → D.Files × Vault × Option VaultError → Type 0
  IsUntouched v r =
      ((r.2 ≡ none) ⊎ (D.read_file r.0 v.path ≡ D.read_file files v.path))
      × (r.1.secrets ≡ v.secrets)
      × (r.1.pass ≡ v.pass)
      × (r.1.created ≡ v.created)

  written-IsUntouched :
      (v : Vault) (now : ℕ) (out : Bytes) (w : D.Files × Option DiskStep)
      → IsReplaced D L files v.path out w
      → IsUntouched v (written D (record v { updated = now }) w)
  written-IsUntouched v now out (after, none) replaced = (inl refl, refl, refl, refl)
  written-IsUntouched v now out (after, some step) replaced = (inr replaced, refl, refl, refl)

  -- On a disk whose calls touch the file that they name, a save that reports an error leaves the
  -- file of the vault as it was, at whatever step it has failed, and no save changes the secrets,
  -- the passphrase or the creation time in memory.
  pub save-IsUntouched :
      (v : Vault) (now : ℕ) (random : Random)
      → (((save C D files v now random).2 ≡ none)
          ⊎ (D.read_file (save C D files v now random).0 v.path ≡ D.read_file files v.path))
        × ((save C D files v now random).1.secrets ≡ v.secrets)
        × ((save C D files v now random).1.pass ≡ v.pass)
        × ((save C D files v now random).1.created ≡ v.created)
  unfolding save
  save-IsUntouched v now random = elim (Bool-cases (v.path == "")) [
    | inl pathless ↦ rw (save, pathless) (inr refl, refl, refl, refl)
    | inr placed ↦ elim (Bool-cases (is_empty v.pass)) [
      | inl closed ↦ rw (save, placed, closed) (inr refl, refl, refl, refl)
      | inr given ↦ elim (Sum-cases (encrypt C (record v { updated = now }) random)) [
        | inl (e, failed) ↦ rw (save, placed, given, failed) (inr refl, refl, refl, refl)
        | inr (out, made) ↦
            rw (save, placed, given, made)
              (written-IsUntouched v now out (write_atomic D files v.path out)
                (write_atomic-IsReplaced D L files v.path out))
      ]
    ]
  ]

  -- A vault that is closed does not reach the disk: its save fails before the first call.
  pub save-close_vault :
      (v : Vault) (now : ℕ) (random : Random)
      → ((save C D files (close_vault v) now random).0 ≡ files)
        × ((save C D files (close_vault v) now random).2 ≢ none)
  unfolding save close_vault
  save-close_vault v now random = elim (Bool-cases (v.path == "")) [
    | inl pathless ↦ rw (save, pathless) (refl, λ e. cc)
    | inr placed ↦ rw (save, placed) (refl, λ e. cc)
  ]

module _ (C : Crypto) (D : Disk) (laws : IsCrypto C) (L : IsDisk D) (files : D.Files) where
  -- After a change of the passphrase that reports no error, the new passphrase opens the file,
  -- and gives the secrets that the vault had in memory.
  pub open-change_passphrase :
      (v : Vault) (pass : Bytes) (now : ℕ) (random : Random)
      → IsUint32 v
      → IsFilled random
      → (change_passphrase C D files v pass now random).2 ≡ none
      → (u : Vault) × (open_vault C D (change_passphrase C D files v pass now random).0 v.path pass
          ≡ inr u)
        × IsCopy (record v { pass = pass; updated = now }) u
  unfolding change_passphrase
  open-change_passphrase v pass now random sizes filled works = elim (Bool-cases (is_empty pass)) [
    | inl empty ↦ let wrong = rw (change_passphrase, empty) at works in cc
    | inr given ↦
        let renewed : Vault = record v { pass = pass } in
        let same : change_passphrase C D files v pass now random
            ≡ save C D files renewed now random =
          rw (change_passphrase, given) refl in
        rw same (open-save C D laws L files renewed now random sizes filled (rw same at works))
  ]

  -- A change of passphrase on a vault that has been closed, with full buffers of random bytes:
  -- when it reports no error, the file opens with the new passphrase and holds no secret at all.
  pub change_passphrase-close_vault :
      (v : Vault) (pass : Bytes) (now : ℕ) (random : Random)
      → IsUint32 v
      → IsFilled random
      → (change_passphrase C D files (close_vault v) pass now random).2 ≡ none
      → (u : Vault) × (open_vault C D
            (change_passphrase C D files (close_vault v) pass now random).0
            v.path
            pass
          ≡ inr u)
        × ((ref : String) → get u ref ≡ none)
  unfolding close_vault get lookup
  change_passphrase-close_vault v pass now random sizes filled works =
      let (u, opened, copy) =
        open-change_passphrase (close_vault v) pass now random sizes filled works in
      (u, opened, λ ref. copy.secrets ref)
