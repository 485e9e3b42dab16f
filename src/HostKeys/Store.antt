-- ===== src/HostKeys/Store.antt =====
-- hostkeys/store.go: the entries, their key, and the calls that check and change them.
use utilities.Base.{
  ℕ, String, Bool, true, false, ◌||◌, Option, none, some, List, [], ◌∷◌, ◌≡◌, Dict, lookup, insert,
  delete, has, string_keyed, map, eqb, ◌==◌, if◌then◌else◌, str_append,
}
use Prim.Native.String.{[] as empty_text, ◌∷◌ as ◌then◌}
use Prim.Native.Char.{code}

-- What the store takes from the Go library and from the ssh package.
pub record Ssh (Key : Type 0) : Type 0 where
  pub key_type : Key → String
  pub marshal : Key → String
  pub fingerprint : Key → String
  -- base64
  pub encode : String → String
  pub decode : String → Option String
  pub decode-encode : (s : String) → decode (encode s) ≡ some s
  -- `strings.ToLower`, `strconv.Itoa`, `strings.TrimSpace`
  pub to_lower : String → String
  pub itoa : ℕ → String
  pub trim_space : String → String
  -- `net.SplitHostPort`, with the port read by `Atoi`, 0 where that fails
  pub split : String → Option (String × ℕ)

pub record Entry : Type 0 where
  pub host : String
  pub port : ℕ
  pub key_type : String
  pub key_blob_b64 : String
  pub fingerprint : String
  pub added_at : ℕ
  pub added_by : String

-- The entries in memory, and those of the file.
pub record Store : Type 0 where
  pub entries : Dict String Entry
  pub saved : List Entry

pub data VerifyError : Type 0 where
  unknown_host : (host : String) → (port : ℕ) → (fingerprint : String) → VerifyError
  key_changed : (host : String) → (port : ℕ) → (fingerprint previous : String) → VerifyError
  corrupt_entry : VerifyError

pub data AddError : Type 0 where
  empty_host : AddError
  not_saved : AddError

-- `strings.Trim(s, "[]")`
abbrev pub is_bracket : ℕ → Bool
is_bracket c = eqb c 91 || eqb c 93

abbrev pub trim_left : String → String
trim_left empty_text = ""
trim_left (c then s) = if is_bracket (code c) then trim_left s else c then s

abbrev pub trim_right : String → String
trim_right empty_text = ""
trim_right (c then s) = elim (trim_right s) [
  | empty_text ↦ if is_bracket (code c) then "" else c then ""
  | t ↦ c then t
]

abbrev pub trim_brackets : String → String
trim_brackets s = trim_right (trim_left s)

abbrev pub default_port : ℕ → ℕ
default_port port = if eqb port 0 then 22 else port

-- `saveLocked`, which writes a new file and renames it over the old one, or fails and leaves that
abbrev pub save : Bool → Store → Store
save works s = if works then record s { saved = map (λ e. e.1) s.entries } else s

module _ {Key : Type 0} where
  unfoldable pub host_key : Ssh Key → String → ℕ → String
  host_key ssh host port =
      str_append (ssh.to_lower (trim_brackets host)) (str_append ":" (ssh.itoa (default_port port)))

  unfoldable pub split_host_port : Ssh Key → String → String × ℕ
  split_host_port ssh hostname = elim (ssh.split (ssh.trim_space hostname)) [
    | some (host, port) ↦ (trim_brackets host, default_port port)
    | none ↦ (trim_brackets (ssh.trim_space hostname), 22)
  ]

  -- The loop of `Open`, on the hosts of a file that is there and well formed.
  unfoldable pub load : Ssh Key → List Entry → Dict String Entry → Dict String Entry
  unfolding host_key
  load ssh [] entries = entries
  load ssh (e ∷ es) entries = load ssh es (insert (host_key ssh e.host e.port) e entries)

  -- `Verify`; `none` accepts
  unfoldable pub verify : Ssh Key → Store → String → Key → Option VerifyError
  unfolding host_key split_host_port
  verify ssh s hostname presented =
      let (host, port) = split_host_port ssh hostname in
      elim (lookup (host_key ssh host port) s.entries) [
        | none ↦ some (unknown_host host port (ssh.fingerprint presented))
        | some e ↦ elim (ssh.decode e.key_blob_b64) [
          | none ↦ some corrupt_entry
          | some stored ↦
              if stored == ssh.marshal presented
              then none
              else some (key_changed host port (ssh.fingerprint presented) e.fingerprint)
        ]
      ]

  abbrev pub new_entry : Ssh Key → String → ℕ → Key → String → ℕ → Entry
  new_entry ssh host port key added_by now = record {
    host = host;
    port = default_port port;
    key_type = ssh.key_type key;
    key_blob_b64 = ssh.encode (ssh.marshal key);
    fingerprint = ssh.fingerprint key;
    added_at = now;
    added_by = added_by;
  }

  unfoldable pub add :
      Ssh Key → Bool → Store → String → ℕ → Key → String → ℕ → Store × Option AddError
  unfolding host_key
  add ssh works s host port key added_by now =
      let e = new_entry ssh host port key added_by now in
      if host == "" then (s, some empty_host) else (
        save works
            (record s { entries = insert (host_key ssh host (default_port port)) e s.entries }),
        if works then none else some not_saved,
      )

  -- `Remove`: whether an entry was there, and whether the file could not be written
  unfoldable pub remove : Ssh Key → Bool → Store → String → ℕ → Store × (Bool × Bool)
  unfolding host_key
  remove ssh works s host port =
      let k = host_key ssh host (default_port port) in
      if has k s.entries
      then (
        save works (record s { entries = delete k s.entries }),
        (true, if works then false else true),
      )
      else (s, (false, false))
