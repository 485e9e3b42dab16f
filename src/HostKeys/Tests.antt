-- ===== src/HostKeys/Tests.antt =====
-- The store at a concrete ssh package whose keys are texts.
use utilities.Base.{
  ℕ, ◌≡◌, refl, String, true, false, Option, none, some, List, [], ◌∷◌, string_keyed, lookup,
  insert,
}
use utilities.HostKeys.Store.{
  Ssh, Store, host_key, unknown_host, key_changed, split_host_port, verify, remove,
}
use utilities.HostKeys.Callbacks.{Attempt, tofu_callback, tofu_dials}
use utilities.HostKeys.Certificates.{
  TlsStore, Certificate, TlsVerifyError, File, tls_save, open_tls, tls_verify, tls_add,
}
use utilities.HostKeys.Certificates.Reopened.{Made, open_tls-tls_verify}
use utilities.HostKeys.Pinned.{tofu_callback-Pins, remove-verify}

abbrev ssh : Ssh String
ssh = record {
  key_type = λ k. "ssh-ed25519";
  marshal = λ k. k;
  fingerprint = λ k. k;
  encode = λ s. s;
  decode = λ s. some s;
  decode-encode = λ s. refl;
  to_lower = λ s. s;
  itoa = λ n. "22";
  trim_space = λ s. s;
  split = λ s. none;
}

abbrev no_hosts : Store
no_hosts = record { entries = []; saved = [] }

abbrev attempts : List (Attempt String)
attempts =
    record { hostname = "[sftp]"; key = "other"; now = 2; writes = true }
    ∷ record { hostname = "backup"; key = "third"; now = 3; writes = true }
    ∷ []

test_split_host_port : split_host_port ssh "[sftp]" ≡ ("sftp", 22)
unfolding split_host_port
test_split_host_port = refl

tofu_callback-Pins_example :
    verify ssh
      (tofu_dials ssh (tofu_callback ssh false 1 no_hosts "[sftp]" "mine").0 attempts)
      "[sftp]"
      "other"
    ≡ some (key_changed "sftp" 22 "other" "mine")
unfolding split_host_port lookup
tofu_callback-Pins_example =
    tofu_callback-Pins ssh false 1 no_hosts "[sftp]" "mine" "other" attempts refl refl

test_remove_verify :
    verify ssh
      (remove ssh true
        (tofu_callback ssh true 1 no_hosts "[sftp]" "mine").0
        (split_host_port ssh "[sftp]").0
        (split_host_port ssh "[sftp]").1).0
      "[sftp]"
      "mine"
    ≡ some (unknown_host (split_host_port ssh "[sftp]").0 (split_host_port ssh "[sftp]").1 "mine")
test_remove_verify =
    remove-verify ssh true (tofu_callback ssh true 1 no_hosts "[sftp]" "mine").0 "[sftp]" "mine"

abbrev certificate : Certificate
certificate = record {
  fingerprint = "SHA256:aa";
  subject = "CN=a";
  issuer = "CN=ca";
  not_after = 9;
}

abbrev tls_hosts : TlsStore
tls_hosts =
    (tls_add ssh false (record { entries = []; saved = [] }) "ftp" 21 (some certificate) 5).0

-- The certificate of a failed `Add` is trusted all the same.
test_tls_add : tls_verify ssh tls_hosts "ftp" 21 (some certificate) ≡ none
unfolding tls_add tls_verify host_key insert lookup
test_tls_add = refl

test_tls_verify :
    tls_verify ssh tls_hosts "ftp" 21 (some (record certificate { fingerprint = "SHA256:bb" }))
    ≡ some (TlsVerifyError.tls_cert_changed "ftp" 21 "SHA256:bb" "SHA256:aa")
unfolding tls_add tls_verify host_key insert lookup
test_tls_verify = refl

no_file : open_tls ssh File.missing ≡ some (record { entries = []; saved = [] })
unfolding open_tls
no_file = refl

tls_hosts-Made : Made ssh tls_hosts
tls_hosts-Made =
    Made.added false (record { entries = []; saved = [] }) "ftp" 21 (some certificate) 5
      (Made.opened File.missing (record { entries = []; saved = [] }) no_file)

open_tls-tls_verify_example :
    (t : TlsStore) × (open_tls ssh (File.hosts (tls_save true tls_hosts).saved) ≡ some t)
    × ((host : String) (port : ℕ) (cert : Option Certificate)
        → tls_verify ssh t host port cert ≡ tls_verify ssh tls_hosts host port cert)
open_tls-tls_verify_example = open_tls-tls_verify ssh tls_hosts tls_hosts-Made
