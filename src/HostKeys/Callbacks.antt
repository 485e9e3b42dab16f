-- ===== src/HostKeys/Callbacks.antt =====
-- hostkeys/callbacks.go: what a dial does with the key of the host.
use utilities.Base.{ℕ, String, Bool, true, false, Option, none, some, List, [], ◌∷◌}
use utilities.HostKeys.Store.{
  Ssh, Store, VerifyError, AddError, unknown_host, key_changed, corrupt_entry, verify, add,
}

pub record CapturedKey : Type 0 where
  pub host : String
  pub port : ℕ
  pub fingerprint : String
  pub previous : String
  pub changed : Bool

-- How a dial ends: accepted, refused by the check, or refused since the key could not be kept.
pub data Dial : Type 0 where
  accepted : Dial
  refused : VerifyError → Dial
  not_persisted : AddError → Dial

module _ {Key : Type 0} where
  unfoldable pub strict_callback : Ssh Key → Store → String → Key → Dial
  unfolding verify
  strict_callback ssh s hostname key = elim (verify ssh s hostname key) [
    | none ↦ accepted
    | some e ↦ refused e
  ]

  -- The store after the dial, its outcome, and the key that `captured` is called with.
  unfoldable pub tofu_callback :
      Ssh Key → Bool → ℕ → Store → String → Key → Store × (Dial × Option CapturedKey)
  unfolding verify add
  tofu_callback ssh works now s hostname key = elim (verify ssh s hostname key) [
    | none ↦ (s, (accepted, none))
    | some (key_changed host port fingerprint previous) ↦
        (s, (refused (key_changed host port fingerprint previous), none))
    | some corrupt_entry ↦ (s, (refused corrupt_entry, none))
    | some (unknown_host host port fingerprint) ↦
        let (after, error) = add ssh works s host port key "ui-tofu" now in
        elim error [
          | some e ↦ (after, (not_persisted e, none))
          | none ↦ (
            after,
            (
              accepted,
              some (record {
                host = host;
                port = port;
                fingerprint = ssh.fingerprint key;
                previous = "";
                changed = false;
              }),
            ),
          )
        ]
  ]

  unfoldable pub capture_callback : Ssh Key → Store → String → Key → Dial × Option CapturedKey
  unfolding verify
  capture_callback ssh s hostname key = elim (verify ssh s hostname key) [
    | none ↦ (accepted, none)
    | some corrupt_entry ↦ (refused corrupt_entry, none)
    | some (unknown_host host port fingerprint) ↦ (
      refused (unknown_host host port fingerprint),
      some (record {
        host = host;
        port = port;
        fingerprint = fingerprint;
        previous = "";
        changed = false;
      }),
    )
    | some (key_changed host port fingerprint previous) ↦ (
      refused (key_changed host port fingerprint previous),
      some (record {
        host = host;
        port = port;
        fingerprint = fingerprint;
        previous = previous;
        changed = true;
      }),
    )
  ]

-- A dial in trust-on-first-use mode, and whether the file can be written then.
pub record Attempt (Key : Type 0) : Type 0 where
  pub hostname : String
  pub key : Key
  pub now : ℕ
  pub writes : Bool

unfoldable pub tofu_dials : {Key : Type 0} → Ssh Key → Store → List (Attempt Key) → Store
unfolding tofu_callback
tofu_dials ssh s [] = s
tofu_dials ssh s (a ∷ attempts) =
    tofu_dials ssh (tofu_callback ssh a.writes a.now s a.hostname a.key).0 attempts
