-- ===== src/Vault/Session.antt =====
-- web/vault_handlers.go: the one vault of the server, its lock, and the requests on it.
pub mod Locked
pub mod Answers
use utilities.Base.{
  ℕ, ◌-◌, String, Bool, true, false, not, ◌&&◌, ◌||◌, Option, none, some, List, [], ◌∷◌, length,
  ltb, eqb, if◌then◌else◌, string_keyed, ◌==◌, ◌⊎◌, inl, inr,
}
use utilities.Vault.Format.{Bytes}
use utilities.Vault.Store.{
  Vault, VaultError, bad_header, wrong_pass, Crypto, Disk, Random, get, set_secret, delete_secret,
  list_refs, close_vault, is_empty,
}
use utilities.Vault.Files.{save, open_vault, create, change_passphrase}

-- `nil` is a locked vault; a timeout of 0 turns the idle lock off.
pub record Binder : Type 0 where
  pub vault : Option Vault
  pub last_touch : ℕ
  pub idle_timeout : ℕ

unfoldable pub touch : ℕ → Binder → Binder
touch now b = elim b.vault [ none ↦ b | some _ ↦ record b { last_touch = now } ]

-- `set`, which closes the vault that was there and returns it as its users still see it
unfoldable pub bind : ℕ → Option Vault → Binder → Binder × Option Vault
unfolding close_vault
bind now v b = (
  record b { vault = v; last_touch = elim v [ none ↦ b.last_touch | some _ ↦ now ] },
  elim b.vault [ none ↦ none | some old ↦ some (close_vault old) ],
)

-- `clear`
abbrev pub lock : ℕ → Binder → Binder
lock now b = (bind now none b).0

unfoldable pub should_auto_lock : ℕ → Binder → Bool
should_auto_lock now b = elim b.vault [
  | none ↦ false
  | some _ ↦ if eqb b.idle_timeout 0 then false else ltb b.idle_timeout (now - b.last_touch)
]

-- A tick of the sweeper.
unfoldable pub idle_sweep : ℕ → Binder → Binder
unfolding should_auto_lock bind
idle_sweep now b = if should_auto_lock now b then lock now b else b

-- What a handler answers.
pub data Answer : Type 0 where
  -- 200
  ok : Answer
  secret : String → Answer
  refs : List String → Answer
  -- 400, 403, 404, 405, 422, 500
  bad_request : Answer
  forbidden : Answer
  not_found : Answer
  bad_method : Answer
  unprocessable : Answer
  failed : Answer

-- The status of a failed unlock.
abbrev pub unlock_answer : VaultError → Answer
unlock_answer wrong_pass = forbidden
unlock_answer (bad_header _) = unprocessable
unlock_answer _ = failed

-- What a request does: the disk and the session after it, and its answer.
module _ (C : Crypto) (D : Disk) where
  pub record State : Type 0 where
    pub files : D.Files
    pub binder : Binder

  abbrev pub bound : ℕ → State → D.Files × (VaultError ⊎ Vault) → State × Answer
  bound now s (files, inl e) = (record s { files = files }, unlock_answer e)
  bound now s (files, inr v) =
      (record { files = files; binder = (bind now (some v) s.binder).0 }, ok)

  -- `handleVaultUnlock`; the passphrase and the `create` flag are those of a body that is JSON
  unfoldable pub handle_unlock :
      State → String → Bool → Option (Bytes × Bool) → ℕ → ℕ → Random → State × Answer
  unfolding create open_vault bind
  handle_unlock s path is_post body now later random =
      if not is_post then (s, bad_method) else if path == "" then (s, failed) else elim body [
        | none ↦ (s, bad_request)
        | some (pass, wants_new) ↦
            if is_empty pass
            then (s, bad_request)
            else if not (D.stat s.files path)
            then if not wants_new
              then (s, not_found)
              else bound now s (create C D s.files path pass now later random)
            else bound now s (s.files, open_vault C D s.files path pass)
      ]

  -- The vault after a save, in the session that holds it.
  abbrev pub saved : State → D.Files × Vault × Option VaultError → State × Answer
  saved s (files, v, none) =
      (record { files = files; binder = record s.binder { vault = some v } }, ok)
  saved s (files, v, some _) =
      (record { files = files; binder = record s.binder { vault = some v } }, failed)

  abbrev pub set_and_save : State → ℕ → Random → Vault × Option VaultError → State × Answer
  set_and_save s now random (v, some e) = (s, bad_request)
  set_and_save s now random (v, none) = saved s (save C D s.files v now random)

  -- A request of which the vault has to be open.
  abbrev pub unlocked : ℕ → State → (State → Vault → State × Answer) → State × Answer
  unlocked now s handler = elim s.binder.vault [
    | none ↦ (s, forbidden)
    | some v ↦ handler (record s { binder = touch now s.binder }) v
  ]

  unfoldable pub handle_set : State → Option (String × String) → ℕ → Random → State × Answer
  unfolding touch set_secret save
  handle_set s body now random = unlocked now s λ t v. elim body [
    | none ↦ (t, bad_request)
    | some (ref, value) ↦
        if ref == "" || value == ""
        then (t, bad_request)
        else set_and_save t now random (set_secret v ref value)
  ]

  unfoldable pub handle_get : State → Option String → ℕ → State × Answer
  unfolding touch get
  handle_get s body now = unlocked now s λ t v. elim body [
    | none ↦ (t, bad_request)
    | some ref ↦
        if ref == ""
        then (t, bad_request)
        else elim (get v ref) [ none ↦ (t, not_found) | some value ↦ (t, secret value) ]
  ]

  unfoldable pub handle_delete : State → Option String → ℕ → Random → State × Answer
  unfolding touch delete_secret save
  handle_delete s body now random = unlocked now s λ t v. elim body [
    | none ↦ (t, bad_request)
    | some ref ↦
        if ref == ""
        then (t, bad_request)
        else saved t (save C D t.files (delete_secret v ref) now random)
  ]

  unfoldable pub handle_list : State → ℕ → State × Answer
  unfolding touch list_refs
  handle_list s now = unlocked now s λ t v. (t, refs (list_refs v))

  unfoldable pub handle_change_passphrase : State → Option Bytes → ℕ → Random → State × Answer
  unfolding touch change_passphrase
  handle_change_passphrase s body now random = unlocked now s λ t v. elim body [
    | none ↦ (t, bad_request)
    | some pass ↦
        if is_empty pass
        then (t, bad_request)
        else saved t (change_passphrase C D t.files v pass now random)
  ]

  unfoldable pub handle_lock : State → Bool → ℕ → State × Answer
  unfolding bind
  handle_lock s is_post now =
      if not is_post then (s, bad_method) else (record s { binder = lock now s.binder }, ok)
