-- ===== src/Vault/Tests/Requests.antt =====
-- The requests on a vault and the migration of credentials on small inputs.
use utilities.Base.{
  ap, ◌≢◌, ◌+◌, ◌<◌, String, true, false, Option, none, some, inr, List, [], ◌∷◌, length, map, ◌≡◌,
  ◌↔◌, refl, All, lookup, insert, delete, string_keyed, ◌==◌, if◌then◌else◌, arith,
}
use utilities.Vault.Format.{Bytes}
use utilities.Vault.Store.{Vault, get}
use utilities.Vault.Files.{open_vault}
use utilities.Vault.Refs.{Csv, is_ref, resolve_row}
use utilities.Vault.Migrate.{
  Migration, Schedule, migrate_rows, migrate_credentials, schedule_candidates,
}
use utilities.Vault.Migrate.Rows.{AreDistinct, HasNoMarker, resolve-migrate_rows}
use utilities.Vault.Migrate.Counted.{HasMoved, migrate_credentials-HasMoved}
use utilities.Vault.Session.{
  State, touch, idle_sweep, forbidden, ok, secret, handle_set, handle_get, handle_delete,
  handle_list, handle_change_passphrase, handle_unlock, handle_lock,
}
use utilities.Vault.Session.Locked.{handlers_when_locked, idle_sweep-touch}
use utilities.Vault.Session.Answers.{open-handle_set, open-handle_delete}
use utilities.Vault.Tests.Sample.{
  small, small-IsCrypto, in_memory, in_memory-IsDisk, random, random-IsFilled, holding,
}

-- The sample's vault without its secret.
abbrev bare : Vault
bare = record holding { secrets = [] }

abbrev session_of : Option Vault → State small in_memory
session_of v = record {
  files = [];
  binder = record { vault = v; last_touch = 1; idle_timeout = 10 };
}

set_works :
    (handle_set small in_memory (session_of (some bare)) (some ("smtp", "hunter2")) 9 random).1 ≡ ok
unfolding handle_set lookup insert delete
set_works = refl

delete_works :
    (handle_delete small in_memory (session_of (some holding)) (some "smtp") 9 random).1 ≡ ok
unfolding handle_delete lookup insert delete
delete_works = refl

test_get :
    (handle_get small in_memory (session_of (some holding)) (some "smtp") 9).1 ≡ secret "hunter2"
unfolding handle_get lookup insert delete
test_get = refl

-- A vault that is created, given a secret, locked and unlocked again.
test_reopened :
    let created =
      handle_unlock small in_memory
        (session_of none)
        "v.bin"
        true
        (some (112 ∷ [], true))
        1
        2
        random in
    let stored = handle_set small in_memory created.0 (some ("smtp", "hunter2")) 3 random in
    let locked = handle_lock small in_memory stored.0 true 4 in
    let opened =
      handle_unlock small in_memory locked.0 "v.bin" true (some (112 ∷ [], false)) 5 6 random in
    (handle_get small in_memory opened.0 (some "smtp") 7).1 ≡ secret "hunter2"
unfolding handle_unlock handle_set handle_lock handle_get lookup insert delete
test_reopened = refl

open-handle_set_example :
    (u : Vault) × (open_vault small in_memory
        (handle_set small in_memory
          (session_of (some bare))
          (some ("smtp", "hunter2"))
          9
          random).0.files
        "v.bin"
        (112 ∷ 119 ∷ [])
      ≡ inr u)
    × ((other : String)
        → get u other ≡ (if "smtp" == other then some "hunter2" else get bare other))
open-handle_set_example =
    open-handle_set small in_memory small-IsCrypto in_memory-IsDisk (session_of (some bare)) bare
      "smtp" "hunter2" 9 random refl (omega arith, omega arith) random-IsFilled set_works

open-handle_delete_example :
    (u : Vault) × (open_vault small in_memory
        (handle_delete small in_memory (session_of (some holding)) (some "smtp") 9 random).0.files
        "v.bin"
        (112 ∷ 119 ∷ [])
      ≡ inr u)
    × ((other : String) → get u other ≡ (if "smtp" == other then none else get holding other))
open-handle_delete_example =
    open-handle_delete small in_memory small-IsCrypto in_memory-IsDisk (session_of (some holding))
      holding "smtp" 9 random refl (omega arith, omega arith) random-IsFilled delete_works

handlers_when_locked_example :
    ((body : Option (String × String))
      → handle_set small in_memory (session_of none) body 9 random ≡ (session_of none, forbidden))
    × ((body : Option String)
        → handle_get small in_memory (session_of none) body 9 ≡ (session_of none, forbidden))
    × ((body : Option String)
        → handle_delete small in_memory (session_of none) body 9 random
          ≡ (session_of none, forbidden))
    × (handle_list small in_memory (session_of none) 9 ≡ (session_of none, forbidden))
    × ((body : Option Bytes)
        → handle_change_passphrase small in_memory (session_of none) body 9 random
          ≡ (session_of none, forbidden))
handlers_when_locked_example = handlers_when_locked small in_memory (session_of none) 9 random refl

idle_sweep-touch_example :
    ((idle_sweep 30 (touch 15 (session_of (some holding)).binder)).vault ≡ none)
    ↔ ((0 < 10) × (15 + 10 < 30))
idle_sweep-touch_example = idle_sweep-touch (session_of (some holding)).binder 15 30 (λ e. cc)

-- ---------------------------------------------------------------- the migration

abbrev start : Migration
start = record { vault = bare; migrated = 0; changed = false; failed = [] }

abbrev two_users : List (List String)
two_users = ("ann" ∷ "one" ∷ "a-*" ∷ []) ∷ ("bob" ∷ "two" ∷ []) ∷ ("note" ∷ []) ∷ []

-- Of two rows of one user, the first comes back with the password of the second.
test_same_user :
    let rows : List (List String) = ("ann" ∷ "one" ∷ []) ∷ ("ann" ∷ "two" ∷ []) ∷ [] in
    let (moved, after) = migrate_rows "s1" "normal_users" rows start in
    map (resolve_row (some after.vault)) moved ≡ ("ann" ∷ "two" ∷ []) ∷ ("ann" ∷ "two" ∷ []) ∷ []
unfolding migrate_rows resolve_row lookup insert delete
test_same_user = refl

apart : true ≢ false
apart h = cc

two_users-AreDistinct : AreDistinct two_users
two_users-AreDistinct = ((λ e. apart (ap (λ s. s == "bob") e), (tt, tt)), ((tt, tt), tt))

two_users-HasNoMarker : All HasNoMarker two_users
unfolding is_ref
two_users-HasNoMarker = (refl, (refl, (tt, tt)))

resolve-migrate_rows_example :
    map
      (resolve_row (some (migrate_rows "s1" "normal_users" two_users start).1.vault))
      (migrate_rows "s1" "normal_users" two_users start).0
    ≡ two_users
resolve-migrate_rows_example =
    resolve-migrate_rows "s1" "normal_users" two_users start two_users-AreDistinct
      two_users-HasNoMarker

-- A CSV reader that knows one text.
abbrev one_text : Csv
one_text = record { rows = λ body. two_users; print = λ rows. "printed" }

abbrev sample_schedule : Schedule
sample_schedule = record {
  id = "s1";
  config = record {
    target_password = "pw";
    private_key_pem = "";
    private_key_passphrase = "";
    bastion_pass = "$vault:x";
    bastion_passphrase = "";
    bastion_private_key_pem = "";
    normal_users_csv = "ann,one";
    large_users_csv = "";
    download_users_csv = "";
  };
}

test_candidates : length (schedule_candidates one_text sample_schedule) ≡ 3
unfolding schedule_candidates
test_candidates = refl

migrate_credentials-HasMoved_example :
    HasMoved start
      (length (schedule_candidates one_text sample_schedule))
      (migrate_credentials one_text "s1" sample_schedule.config start).1
migrate_credentials-HasMoved_example = migrate_credentials-HasMoved one_text sample_schedule start
