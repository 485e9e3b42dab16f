-- ===== src/HostKeys/Pinned.antt =====
-- hostkeys: sequences of dials in trust-on-first-use mode, and the removal of an entry.
use utilities.Base.{
  ℕ, ◌≡◌, refl, String, Bool, false, none, some, List, [], ◌∷◌, inl, inr, Option-cases, Bool-cases,
  Dict, lookup, insert, has, lookup_of_has, lookup-insert, lookup-delete, same_refl, string_keyed,
  ◌==◌, if◌then◌else◌, arith,
}
use utilities.HostKeys.Store.{
  Ssh, Store, Entry, unknown_host, key_changed, host_key, split_host_port, default_port, verify,
  add, remove, save, new_entry,
}
use utilities.HostKeys.Callbacks.{tofu_callback, Attempt, tofu_dials}

module _ {Key : Type 0} (ssh : Ssh Key) where
  -- The key of the entries under which a dialled name is looked up.
  abbrev pub dialled : String → String
  dialled hostname = host_key ssh (split_host_port ssh hostname).0 (split_host_port ssh hostname).1

  host_key-default_port :
      (host : String) (port : ℕ) → host_key ssh host (default_port port) ≡ host_key ssh host port
  unfolding host_key
  host_key-default_port host port = ground arith

  entries-save :
      (works : Bool) (s : Store) (entries : Dict String Entry)
      → (save works (record s { entries = entries })).entries ≡ entries
  entries-save works s entries = ground arith

  entries-add :
      (works : Bool) (s : Store) (host : String) (port : ℕ) (key : Key) (by : String) (now : ℕ)
      → (host == "") ≡ false
      → (add ssh works s host port key by now).0.entries
        ≡ insert (host_key ssh host port) (new_entry ssh host port key by now) s.entries
  unfolding add
  entries-add works s host port key by now named =
      simp (add, named, host_key-default_port host port, entries-save works) refl

  -- A dial leaves the store as it is, or adds the key of an unknown host.
  tofu_callback_known :
      (works : Bool) (now : ℕ) (s : Store) (hostname : String) (key : Key) (e : Entry)
      → lookup (dialled hostname) s.entries ≡ some e
      → (tofu_callback ssh works now s hostname key).0 ≡ s
  unfolding tofu_callback verify
  tofu_callback_known works now s hostname key e known =
      rw (known, tofu_callback) (ground (arith, Option-cases (ssh.decode e.key_blob_b64)))

  tofu_callback_unknown :
      (works : Bool) (now : ℕ) (s : Store) (hostname : String) (key : Key)
      → lookup (dialled hostname) s.entries ≡ none
      → (tofu_callback ssh works now s hostname key).0
        ≡ (add ssh works s
            (split_host_port ssh hostname).0
            (split_host_port ssh hostname).1
            key
            "ui-tofu"
            now).0
  unfolding tofu_callback verify
  tofu_callback_unknown works now s hostname key new =
      let after =
        add ssh works s (split_host_port ssh hostname).0 (split_host_port ssh hostname).1 key
          "ui-tofu" now in
      elim (Option-cases after.1) [
        | inl e ↦ rw (new, tofu_callback, e) refl
        | inr (err, e) ↦ rw (new, tofu_callback, e) refl
      ]

  add-keeps :
      (works : Bool) (s : Store) (host : String) (port : ℕ) (key : Key) (by : String) (now : ℕ)
      (k : String) (e : Entry)
      → lookup (host_key ssh host port) s.entries ≡ none
      → lookup k s.entries ≡ some e
      → lookup k (add ssh works s host port key by now).0.entries ≡ some e
  unfolding add
  add-keeps works s host port key by now k e new known = elim (Bool-cases (host == "")) [
    | inl empty ↦ rw (empty, add) known
    | inr named ↦
        rw (entries-add works s host port key by now named)
          (elim (Bool-cases (host_key ssh host port == k)) [
            | inl same ↦ cc ((string_keyed.same_iff (host_key ssh host port) k).0 same)
            | inr other ↦
                rw
                  (
                    lookup-insert (host_key ssh host port) k (new_entry ssh host port key by now)
                        s.entries,
                    other,
                  )
                  known
          ])
  ]

  tofu_callback-keeps :
      (works : Bool) (now : ℕ) (s : Store) (hostname : String) (key : Key) (k : String) (e : Entry)
      → lookup k s.entries ≡ some e
      → lookup k (tofu_callback ssh works now s hostname key).0.entries ≡ some e
  tofu_callback-keeps works now s hostname key k e known =
      elim (Option-cases (lookup (dialled hostname) s.entries)) [
        | inl new ↦ rw (tofu_callback_unknown works now s hostname key new) (
            add-keeps works s (split_host_port ssh hostname).0 (split_host_port ssh hostname).1 key
              "ui-tofu" now k e new known)
        | inr (f, old) ↦ rw (tofu_callback_known works now s hostname key f old) known
      ]

  tofu_dials-keeps :
      (s : Store) (attempts : List (Attempt Key)) (k : String) (e : Entry)
      → lookup k s.entries ≡ some e
      → lookup k (tofu_dials ssh s attempts).entries ≡ some e
  unfolding tofu_dials
  tofu_dials-keeps s [] k e known = known
  tofu_dials-keeps s (a ∷ attempts) k e known =
      tofu_dials-keeps (tofu_callback ssh a.writes a.now s a.hostname a.key).0 attempts k e
        (tofu_callback-keeps a.writes a.now s a.hostname a.key k e known)

  verify_known :
      (s : Store) (hostname : String) (key presented : Key) (e : Entry)
      → lookup (dialled hostname) s.entries ≡ some e
      → e.key_blob_b64 ≡ ssh.encode (ssh.marshal key)
      → verify ssh s hostname presented ≡ (
          if ssh.marshal key == ssh.marshal presented
          then none
          else some (
              key_changed
                (split_host_port ssh hostname).0
                (split_host_port ssh hostname).1
                (ssh.fingerprint presented)
                e.fingerprint))
  unfolding verify
  verify_known s hostname key presented e known blob =
      rw (known, verify) (rw (blob, ssh.decode-encode (ssh.marshal key)) refl)

  -- A dial to a name that is not in the store yet, and whose host is not empty, makes its key the
  -- one that is trusted under that name, even where the file cannot be written: after any further
  -- dials in trust-on-first-use mode, to this and other hosts, the check accepts exactly the keys
  -- with the same bytes and reports every other one as changed, with both fingerprints.
  pub tofu_callback-Pins :
      (works : Bool) (now : ℕ) (s : Store) (hostname : String) (key presented : Key)
      (attempts : List (Attempt Key))
      → ((split_host_port ssh hostname).0 == "") ≡ false
      → lookup (dialled hostname) s.entries ≡ none
      → verify ssh
          (tofu_dials ssh (tofu_callback ssh works now s hostname key).0 attempts)
          hostname
          presented
        ≡ (if ssh.marshal key == ssh.marshal presented
            then none
            else some (
                key_changed
                  (split_host_port ssh hostname).0
                  (split_host_port ssh hostname).1
                  (ssh.fingerprint presented)
                  (ssh.fingerprint key)))
  tofu_callback-Pins works now s hostname key presented attempts named new =
      let host = (split_host_port ssh hostname).0 in
      let port = (split_host_port ssh hostname).1 in
      let e = new_entry ssh host port key "ui-tofu" now in
      let added : lookup (dialled hostname) (tofu_callback ssh works now s hostname key).0.entries
          ≡ some e =
        rw (tofu_callback_unknown works now s hostname key new) (
          rw (entries-add works s host port key "ui-tofu" now named) (
            rw
              (
                lookup-insert (dialled hostname) (dialled hostname) e s.entries,
                same_refl (dialled hostname),
              )
              refl)) in
      verify_known (tofu_dials ssh (tofu_callback ssh works now s hostname key).0 attempts) hostname
        key presented e
        (tofu_dials-keeps (tofu_callback ssh works now s hostname key).0 attempts (dialled hostname)
          e added)
        refl

  remove-lookup :
      (works : Bool) (s : Store) (host : String) (port : ℕ)
      → lookup (host_key ssh host port) (remove ssh works s host port).0.entries ≡ none
  unfolding remove
  remove-lookup works s host port = elim (Bool-cases (has (host_key ssh host port) s.entries)) [
    | inl e ↦
        simp
          (
            remove,
            host_key-default_port host port,
            e,
            entries-save works,
            lookup-delete (host_key ssh host port) (host_key ssh host port) s.entries,
            same_refl (host_key ssh host port),
          )
          refl
    | inr e ↦
        simp (remove, host_key-default_port host port, e)
          (lookup_of_has (host_key ssh host port) s.entries e)
  ]

  -- After the entry of a host and port is removed, a dial under that name finds an unknown host.
  pub remove-verify :
      (works : Bool) (s : Store) (hostname : String) (presented : Key)
      → let (host, port) = split_host_port ssh hostname in
        verify ssh (remove ssh works s host port).0 hostname presented
        ≡ some (unknown_host host port (ssh.fingerprint presented))
  unfolding verify
  remove-verify works s hostname presented =
      let (host, port) = split_host_port ssh hostname in
      rw (remove-lookup works s host port, verify) refl
