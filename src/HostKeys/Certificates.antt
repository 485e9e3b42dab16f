-- ===== src/HostKeys/Certificates.antt =====
-- hostkeys/tlsstore.go: the store of the certificates of FTPS servers.
pub mod Reopened
use utilities.Base.{
  ℕ, String, Bool, true, false, Option, none, some, List, [], ◌∷◌, map, Dict, lookup, insert,
  delete, has, ◌==◌, string_keyed, sort_by, ltb, if◌then◌else◌,
}
use Prim.Native.Nat.{Ordering}
use Prim.Native.String.{compare}
use utilities.HostKeys.Store.{Ssh, host_key}

pub record TlsEntry : Type 0 where
  pub host : String
  pub port : ℕ
  pub fingerprint : String
  pub subject : String
  pub issuer : String
  pub not_after : ℕ
  pub added_at : ℕ

-- What the store reads of a certificate.
pub record Certificate : Type 0 where
  pub fingerprint : String
  pub subject : String
  pub issuer : String
  pub not_after : ℕ

-- The entries in memory, and those of the file.
pub record TlsStore : Type 0 where
  pub entries : Dict String TlsEntry
  pub saved : List TlsEntry

pub data TlsVerifyError : Type 0 where
  no_certificate : TlsVerifyError
  unknown_tls_host : (host : String) → (port : ℕ) → (fingerprint : String) → TlsVerifyError
  tls_cert_changed : (host : String) → (port : ℕ) → (fingerprint previous : String) → TlsVerifyError

pub data TlsAddError : Type 0 where
  no_certificate_to_add : TlsAddError
  not_written : TlsAddError

-- What `ReadFile` and the JSON reader make of the file.
pub data File : Type 0 where
  missing : File
  unreadable : File
  empty_file : File
  malformed : File
  hosts : List TlsEntry → File

abbrev pub entry_less : TlsEntry → TlsEntry → Bool
entry_less a b =
    if a.host == b.host
    then ltb a.port b.port
    else elim (compare a.host b.host) [ Ordering.lt ↦ true | _ ↦ false ]

-- `List`, and what `saveLocked` writes.
unfoldable pub tls_list : TlsStore → List TlsEntry
unfolding sort_by
tls_list s = sort_by entry_less (map (λ e. e.1) s.entries)

abbrev pub tls_save : Bool → TlsStore → TlsStore
tls_save works s = if works then record s { saved = tls_list s } else s

-- `Save`, and whether the file could not be written.
unfoldable pub save_now : Bool → TlsStore → TlsStore × Bool
unfolding tls_list
save_now works s = (tls_save works s, if works then false else true)

module _ {Key : Type 0} (ssh : Ssh Key) where
  unfoldable pub load_hosts : List TlsEntry → Dict String TlsEntry → Dict String TlsEntry
  unfolding host_key
  load_hosts [] entries = entries
  load_hosts (e ∷ es) entries = load_hosts es (insert (host_key ssh e.host e.port) e entries)

  -- `none` is an error.
  unfoldable pub open_tls : File → Option TlsStore
  unfolding load_hosts
  open_tls File.missing = some (record { entries = []; saved = [] })
  open_tls File.unreadable = none
  open_tls File.empty_file = some (record { entries = []; saved = [] })
  open_tls File.malformed = none
  open_tls (File.hosts es) = some (record { entries = load_hosts es []; saved = es })

  -- `none` accepts, and a `nil` certificate is `none`.
  unfoldable pub tls_verify : TlsStore → String → ℕ → Option Certificate → Option TlsVerifyError
  unfolding host_key
  tls_verify s host port none = some TlsVerifyError.no_certificate
  tls_verify s host port (some cert) = elim (lookup (host_key ssh host port) s.entries) [
    | none ↦ some (TlsVerifyError.unknown_tls_host host port cert.fingerprint)
    | some stored ↦
        if stored.fingerprint == cert.fingerprint
        then none
        else some (TlsVerifyError.tls_cert_changed host port cert.fingerprint stored.fingerprint)
  ]

  abbrev pub tls_entry : String → ℕ → Certificate → ℕ → TlsEntry
  tls_entry host port cert now = record {
    host = host;
    port = port;
    fingerprint = cert.fingerprint;
    subject = cert.subject;
    issuer = cert.issuer;
    not_after = cert.not_after;
    added_at = now;
  }

  unfoldable pub tls_add :
      Bool → TlsStore → String → ℕ → Option Certificate → (now : ℕ) → TlsStore × Option TlsAddError
  unfolding host_key tls_list
  tls_add works s host port none now = (s, some TlsAddError.no_certificate_to_add)
  tls_add works s host port (some cert) now = (
    tls_save works (record s {
      entries = insert (host_key ssh host port) (tls_entry host port cert now) s.entries;
    }),
    if works then none else some TlsAddError.not_written,
  )

  -- Whether an entry was there, and whether the file could not be written.
  unfoldable pub tls_remove : Bool → TlsStore → String → ℕ → TlsStore × (Bool × Bool)
  unfolding host_key tls_list
  tls_remove works s host port =
      let k = host_key ssh host port in
      if has k s.entries
      then (
        tls_save works (record s { entries = delete k s.entries }),
        (true, if works then false else true),
      )
      else (s, (false, false))
