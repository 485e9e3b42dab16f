-- ===== src/Vault/Session/Locked.antt =====
-- web/vault_handlers.go: the requests on a locked vault, and the lock of one that is idle.
use utilities.Base.{
  ℕ, ◌+◌, ◌<◌, String, true, Bool-cases, Option, none, some, Option-cases, inl, inr, ◌≡◌, ◌≢◌, ◌↔◌,
  refl, ap, arith,
}
use utilities.Vault.Format.{Bytes}
use utilities.Vault.Store.{Crypto, Disk, Random}
use utilities.Vault.Session.{
  Binder, touch, bind, should_auto_lock, idle_sweep, State, forbidden, handle_set, handle_get,
  handle_delete, handle_list, handle_change_passphrase,
}

-- While the vault is locked, each request that reads or changes secrets answers that it is
-- forbidden, and leaves the disk and the session as they were.
pub handlers_when_locked :
    (C : Crypto) (D : Disk) (s : State C D) (now : ℕ) (random : Random)
    → s.binder.vault ≡ none
    → ((body : Option (String × String)) → handle_set C D s body now random ≡ (s, forbidden))
      × ((body : Option String) → handle_get C D s body now ≡ (s, forbidden))
      × ((body : Option String) → handle_delete C D s body now random ≡ (s, forbidden))
      × (handle_list C D s now ≡ (s, forbidden))
      × ((body : Option Bytes) → handle_change_passphrase C D s body now random ≡ (s, forbidden))
unfolding handle_set handle_get handle_delete handle_list handle_change_passphrase
handlers_when_locked C D s now random locked = (
  λ body. rw (handle_set, locked) refl,
  λ body. rw (handle_get, locked) refl,
  λ body. rw (handle_delete, locked) refl,
  rw (handle_list, locked) refl,
  λ body. rw (handle_change_passphrase, locked) refl,
)

touch-some : (b : Binder) (now : ℕ) → b.vault ≢ none → touch now b ≡ record b { last_touch = now }
unfolding touch
touch-some b now unlocked = elim (Option-cases b.vault) [
  | inl locked ↦ absurd (unlocked locked)
  | inr (v, held) ↦ ap (λ o. elim o [ none ↦ b | some _ ↦ record b { last_touch = now } ]) held
]

-- The vault of a session is unlocked, and the sweeper looks at it.
should_auto_lock-some :
    (b : Binder) (now : ℕ)
    → b.vault ≢ none
    → (should_auto_lock now b ≡ true)
      ↔ ((0 < b.idle_timeout) × (b.last_touch + b.idle_timeout < now))
unfolding should_auto_lock
should_auto_lock-some b now unlocked = elim (Option-cases b.vault) [
  | inl locked ↦ absurd (unlocked locked)
  | inr (v, held) ↦ rw (should_auto_lock, held) (ground arith)
]

idle_sweep-none :
    (b : Binder) (now : ℕ)
    → b.vault ≢ none
    → ((idle_sweep now b).vault ≡ none) ↔ (should_auto_lock now b ≡ true)
unfolding idle_sweep bind
idle_sweep-none b now unlocked = elim (Bool-cases (should_auto_lock now b)) [
  | inl idle ↦ rw (idle_sweep, idle) (λ _. refl, λ _. refl)
  | inr fresh ↦ rw (idle_sweep, fresh) (λ e. absurd (unlocked e), λ e. cc)
]

-- With an unlocked vault, after a request at `now`, a tick of the sweeper at `later` locks the vault exactly when the
-- timeout is on and more than the timeout has passed since the request.
pub idle_sweep-touch :
    (b : Binder) (now later : ℕ)
    → b.vault ≢ none
    → ((idle_sweep later (touch now b)).vault ≡ none)
      ↔ ((0 < b.idle_timeout) × (now + b.idle_timeout < later))
idle_sweep-touch b now later unlocked =
    let touched : Binder = record b { last_touch = now } in
    let swept = idle_sweep-none touched later unlocked in
    let waited = should_auto_lock-some touched later unlocked in
    rw (touch-some b now unlocked) (λ e. waited.0 (swept.0 e), λ h. swept.1 (waited.1 h))
