-- ===== src/Vault/Files.antt =====
-- vault/vault.go: the calls on the file of a vault, its atomic replacement among them.
pub mod Atomic
pub mod Opened
pub mod Changed
pub mod Accepted
use utilities.Base.{
  String, Bool, true, false, Option, none, some, List, [], string_keyed, ◌==◌, if◌then◌else◌, ◌⊎◌,
  inl, inr, ℕ, str_append,
}
use utilities.Vault.Format.{Bytes}
use utilities.Vault.Store.{
  Vault, VaultError, DiskStep, Crypto, Disk, Random, encrypt, decrypt, is_empty, default_mem_kib,
  default_iterations, default_threads, mkdir, open_tmp, write, fsync, close, rename, no_path,
  empty_pass, already_exists, not_read, not_written,
}

-- One call, with what follows when it fails and when it works.
abbrev pub checked {ℓ κ} : {F : Type ℓ} {R : Type κ} → F × Bool → (F → R) → (F → R) → R
checked (files, true) failed worked = worked files
checked (files, false) failed worked = failed files

abbrev pub tmp_of : String → String
tmp_of path = str_append path ".tmp"

module _ (D : Disk) where
  -- The end of `Save`: the bytes go to `<path>.tmp`, which then takes the place of the file.
  unfoldable pub write_atomic : D.Files → String → Bytes → D.Files × Option DiskStep
  write_atomic files path out =
      let tmp = tmp_of path in
      checked (D.mkdir_all files path) (λ f. (f, some mkdir))
        λ f.
          checked (D.open_truncated f tmp) (λ f. (f, some open_tmp))
            λ f.
              checked (D.write f tmp out) (λ f. (D.remove (D.close f tmp).0 tmp, some write))
                λ f.
                  checked (D.sync f tmp) (λ f. (D.remove (D.close f tmp).0 tmp, some fsync))
                    λ f.
                      checked (D.close f tmp) (λ f. (D.remove f tmp, some close))
                        λ f. checked (D.rename f tmp path) (λ f. (f, some rename)) λ f. (f, none)

  abbrev pub written : Vault → D.Files × Option DiskStep → D.Files × Vault × Option VaultError
  written v (files, none) = (files, v, none)
  written v (files, some step) = (files, v, some (not_written step))

module _ (C : Crypto) (D : Disk) where
  -- `Save` at the time `now`
  unfoldable pub save : D.Files → Vault → ℕ → Random → D.Files × Vault × Option VaultError
  unfolding encrypt write_atomic
  save files v now random =
      if v.path == ""
      then (files, v, some no_path)
      else if is_empty v.pass
      then (files, v, some empty_pass)
      else let stamped : Vault = record v { updated = now } in
        elim (encrypt C stamped random) [
          | inl e ↦ (files, stamped, some e)
          | inr out ↦ written D stamped (write_atomic D files v.path out)
        ]

  unfoldable pub open_vault : D.Files → String → Bytes → VaultError ⊎ Vault
  unfolding decrypt
  open_vault files path pass =
      if is_empty pass then inl empty_pass else elim (D.read_file files path) [
        | none ↦ inl not_read
        | some raw ↦ decrypt C path pass raw
      ]

  abbrev pub new_vault : String → Bytes → ℕ → Vault
  new_vault path pass now = record {
    path = path;
    pass = pass;
    secrets = [];
    created = now;
    updated = now;
    mem_kib = default_mem_kib;
    iterations = default_iterations;
    threads = default_threads;
  }

  abbrev pub created : D.Files × Vault × Option VaultError → D.Files × (VaultError ⊎ Vault)
  created (files, v, none) = (files, inr v)
  created (files, v, some e) = (files, inl e)

  -- `Create`, which reads the clock for the new vault and again in `Save`
  unfoldable pub create : D.Files → String → Bytes → ℕ → ℕ → Random → D.Files × (VaultError ⊎ Vault)
  unfolding save
  create files path pass now later random =
      if is_empty pass
      then (files, inl empty_pass)
      else if D.stat files path
      then (files, inl already_exists)
      else created (save files (new_vault path pass now) later random)

  unfoldable pub change_passphrase :
      D.Files → Vault → Bytes → ℕ → Random → D.Files × Vault × Option VaultError
  unfolding save
  change_passphrase files v pass now random =
      if is_empty pass
      then (files, v, some empty_pass)
      else save files (record v { pass = pass }) now random
