-- ===== src/Vault/Session/Answers.antt =====
-- web/vault_handlers.go: what a request that succeeds has left on the disk.
use utilities.Base.{
  ℕ, String, false, ◌||◌, if_of_false, Bool-cases, Option, none, some, inl, inr, ◌≡◌, refl, ap, ◌∙◌,
  insert, lookup-insert, lookup-delete, string_keyed, ◌==◌, if◌then◌else◌,
}
use utilities.Vault.Store.{
  Vault, VaultError, Crypto, IsCrypto, Disk, Random, get, set_secret, delete_secret,
}
use utilities.Vault.Files.{save, open_vault}
use utilities.Vault.Files.Atomic.{IsDisk}
use utilities.Vault.Files.Opened.{IsCopy, IsFilled, IsUint32, open-save}
use utilities.Vault.Session.{
  State, Answer, ok, saved, touch, handle_set, handle_delete, set_and_save, unlocked, forbidden,
  bad_request,
}

module _ (C : Crypto) (D : Disk) where
  saved-files :
      (s : State C D) (r : D.Files × Vault × Option VaultError) → (saved C D s r).0.files ≡ r.0
  saved-files s (files, v, none) = refl
  saved-files s (files, v, some e) = refl

  saved-ok :
      (s : State C D) (r : D.Files × Vault × Option VaultError)
      → (saved C D s r).1 ≡ ok
      → r.2 ≡ none
  saved-ok s (files, v, none) h = refl
  saved-ok s (files, v, some e) h = cc

  set_secret-none :
      (v : Vault) (ref value : String)
      → (ref == "" || value == "") ≡ false
      → set_secret v ref value ≡ (record v { secrets = insert ref value v.secrets }, none)
  unfolding set_secret
  set_secret-none v ref value h = elim (Bool-cases (ref == "")) [
    | inl empty ↦ let wrong = rw empty at h in cc
    | inr given ↦ elim (Bool-cases (value == "")) [
      | inl empty ↦ let wrong = rw (given, empty) at h in cc
      | inr filled ↦ rw (set_secret, given, filled) refl
    ]
  ]

  unlocked-some :
      (now : ℕ) (s : State C D) (handler : State C D → Vault → State C D × Answer) (v : Vault)
      → s.binder.vault ≡ some v
      → unlocked C D now s handler ≡ handler (record s { binder = touch now s.binder }) v
  unlocked-some now s handler v held =
      ap
        (λ o. elim o [
          | none ↦ (s, forbidden)
          | some w ↦ handler (record s { binder = touch now s.binder }) w
        ])
        held

module _ (C : Crypto) (D : Disk) (laws : IsCrypto C) (L : IsDisk D) where
  open-saved :
      (t : State C D) (v : Vault) (now : ℕ) (random : Random) (call : State C D × Answer)
      → IsUint32 v
      → IsFilled random
      → call ≡ saved C D t (save C D t.files v now random)
      → call.1 ≡ ok
      → (u : Vault) × (open_vault C D call.0.files v.path v.pass ≡ inr u)
        × IsCopy (record v { updated = now }) u
  open-saved t v now random call sizes filled result works =
      let r = save C D t.files v now random in
      let done = saved-ok C D t r (rw result at works) in
      let (u, opened, copy) = open-save C D laws L t.files v now random sizes filled done in
      (
        u,
        ap (λ f. open_vault C D f v.path v.pass) (ap (λ x. x.0.files) result ∙ saved-files C D t r)
            ∙ opened,
        copy,
      )

  -- Where opening undoes sealing, JSON reads back what it writes and a call of the disk touches
  -- the file that it names: when a request to set a secret is answered with success, `Open` of the
  -- file with the passphrase of the session finds that secret, and every other one as the session
  -- had it.
  pub open-handle_set :
      (s : State C D) (v : Vault) (ref value : String) (now : ℕ) (random : Random)
      → s.binder.vault ≡ some v
      → IsUint32 v
      → IsFilled random
      → (handle_set C D s (some (ref, value)) now random).1 ≡ ok
      → (u : Vault) × (open_vault C D
            (handle_set C D s (some (ref, value)) now random).0.files
            v.path
            v.pass
          ≡ inr u)
        × ((other : String) → get u other ≡ (if ref == other then some value else get v other))
  unfolding handle_set get
  open-handle_set s v ref value now random held sizes filled works =
      elim (Bool-cases (ref == "" || value == "")) [
        | inl empty ↦ let wrong = rw (handle_set, held, empty) at works in cc
        | inr given ↦
            let t : State C D = record s { binder = touch now s.binder } in
            let v1 : Vault = record v { secrets = insert ref value v.secrets } in
            let handler : State C D → Vault → State C D × Answer = λ t v.
              if ref == "" || value == ""
              then (t, bad_request)
              else set_and_save C D t now random (set_secret v ref value) in
            let result : handle_set C D s (some (ref, value)) now random
                ≡ saved C D t (save C D t.files v1 now random) =
              unlocked-some C D now s handler v held
              ∙ if_of_false (ref == "" || value == "") (t, bad_request) _ given
              ∙ ap (set_and_save C D t now random) (set_secret-none C D v ref value given) in
            let (u, opened, copy) = open-saved t v1 now random _ sizes filled result works in
            (u, opened, λ other. copy.secrets other ∙ lookup-insert ref other value v.secrets)
      ]

  -- When a request to delete a secret is answered with success, an unlock of the file finds no
  -- secret under that name, and every other one as the session had it.
  pub open-handle_delete :
      (s : State C D) (v : Vault) (ref : String) (now : ℕ) (random : Random)
      → s.binder.vault ≡ some v
      → IsUint32 v
      → IsFilled random
      → (handle_delete C D s (some ref) now random).1 ≡ ok
      → (u : Vault) × (open_vault C D
            (handle_delete C D s (some ref) now random).0.files
            v.path
            v.pass
          ≡ inr u)
        × ((other : String) → get u other ≡ (if ref == other then none else get v other))
  unfolding handle_delete get delete_secret
  open-handle_delete s v ref now random held sizes filled works = elim (Bool-cases (ref == "")) [
    | inl empty ↦ let wrong = rw (handle_delete, held, empty) at works in cc
    | inr given ↦
        let t : State C D = record s { binder = touch now s.binder } in
        let v1 : Vault = delete_secret v ref in
        let handler : State C D → Vault → State C D × Answer = λ t v.
          if ref == ""
          then (t, bad_request)
          else saved C D t (save C D t.files (delete_secret v ref) now random) in
        let result : handle_delete C D s (some ref) now random
            ≡ saved C D t (save C D t.files v1 now random) =
          unlocked-some C D now s handler v held
          ∙ if_of_false (ref == "") (t, bad_request) _ given in
        let (u, opened, copy) = open-saved t v1 now random _ sizes filled result works in
        (u, opened, λ other. copy.secrets other ∙ lookup-delete ref other v.secrets)
  ]
