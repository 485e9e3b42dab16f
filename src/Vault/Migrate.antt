-- ===== src/Vault/Migrate.antt =====
-- web/vault_migrate.go: the move of plain credentials from the schedules into the vault.
pub mod Row
pub mod Rows
pub mod Counted
use utilities.Base.{
  ℕ, ◌+◌, String, Bool, true, false, not, ◌&&◌, ◌||◌, Option, none, some, List, [], ◌∷◌, ◌++◌, map,
  eqb, ltb, if◌then◌else◌, str_append, string_keyed, ◌==◌,
}
use Prim.Native.String.{[] as empty_text, ◌∷◌ as ◌then◌}
use Prim.Native.Char.{code}
use utilities.Vault.Store.{Vault, VaultError, set_secret}
use utilities.Vault.Refs.{Csv, Credentials, is_ref, make_ref}

pub record Schedule : Type 0 where
  pub id : String
  pub config : Credentials

pub record Candidate : Type 0 where
  pub schedule_id : String
  pub field : String
  pub ref : String

pub data Failure : Type 0 where
  not_set : (label : String) → VaultError → Failure
  not_saved : (schedule_id : String) → Failure

-- What `applyScheduleMigrations` shares with the calls for one field.
pub record Migration : Type 0 where
  pub vault : Vault
  pub migrated : ℕ
  pub changed : Bool
  pub failed : List Failure

-- `"schedule:" + id + "/" + field`
abbrev pub ref_of : String → String → String
ref_of id field = str_append "schedule:" (str_append id (str_append "/" field))

-- The loop of `makeRefMarker`: the text before the first colon and the one after it.
unfoldable pub split_at_colon : String → Option (String × String)
split_at_colon empty_text = none
split_at_colon (c then s) =
    let rest = split_at_colon s in
    if eqb (code c) 58
    then some ("", s)
    else elim rest [ none ↦ none | some (before, after) ↦ some (c then before, after) ]

unfoldable pub make_ref_marker : String → String
unfolding split_at_colon make_ref
make_ref_marker key = elim (split_at_colon key) [
  | some (namespace, rest) ↦ make_ref namespace rest
  | none ↦ make_ref "" key
]

abbrev pub is_plain : String → Bool
is_plain value = not (value == "" || is_ref value)

-- A value that is stored under `ref`, or the failure to store it, with its label.
abbrev pub stored :
    String → String → String → Migration → Vault × Option VaultError → String × Migration
stored label ref value m (vault, none) =
    (make_ref_marker ref, record m { vault = vault; migrated = m.migrated + 1; changed = true })
stored label ref value m (vault, some e) =
    (value, record m { failed = m.failed ++ not_set label e ∷ [] })

-- `moveScalar`
unfoldable pub move_scalar : String → String → String → Migration → String × Migration
unfolding is_ref make_ref_marker set_secret
move_scalar id field value m =
    if not (is_plain value)
    then (value, m)
    else stored (str_append id (str_append "/" field)) (ref_of id field) value m
        (set_secret m.vault (ref_of id field) value)

-- The ref of the password of a row: `kind + "." + row[0]`
abbrev pub row_ref : String → String → String → String
row_ref id kind user = ref_of id (str_append kind (str_append "." user))

abbrev pub with_pass : String → List String → String × Migration → List String × Migration
with_pass user rest (pass, m) = (user ∷ pass ∷ rest, m)

-- The body of the loop of `migrateCSV`
unfoldable pub migrate_row : String → String → List String → Migration → List String × Migration
unfolding is_ref make_ref_marker set_secret
migrate_row id kind (user ∷ pass ∷ rest) m =
    if is_plain pass
    then with_pass user rest (
        stored (row_ref id kind user) (row_ref id kind user) pass m
          (set_secret m.vault (row_ref id kind user) pass))
    else (user ∷ pass ∷ rest, m)
migrate_row id kind row m = (row, m)

unfoldable pub migrate_rows :
    String → String → List (List String) → Migration → List (List String) × Migration
unfolding migrate_row
migrate_rows id kind [] m = ([], m)
migrate_rows id kind (row ∷ rows) m =
    let (moved, m1) = migrate_row id kind row m in
    let (rest, m2) = migrate_rows id kind rows m1 in (moved ∷ rest, m2)

unfoldable pub migrate_csv : Csv → String → String → String → Migration → String × Migration
unfolding migrate_rows
migrate_csv csv body id kind m =
    if body == ""
    then (body, m)
    else let (rows, after) = migrate_rows id kind (csv.rows body) m in (csv.print rows, after)

-- The fields of one schedule, in the order of the calls.
unfoldable pub migrate_credentials :
    Csv → String → Credentials → Migration → Credentials × Migration
unfolding move_scalar migrate_csv
migrate_credentials csv id c m0 =
    let (target, m1) = move_scalar id "target_password" c.target_password m0 in
    let (key, m2) = move_scalar id "private_key_pem" c.private_key_pem m1 in
    let (phrase, m3) = move_scalar id "private_key_passphrase" c.private_key_passphrase m2 in
    let (bastion, m4) = move_scalar id "bastion_pass" c.bastion_pass m3 in
    let (bastion_key, m5) = move_scalar id "bastion_private_key_pem" c.bastion_private_key_pem m4 in
    let (bastion_phrase, m6) = move_scalar id "bastion_passphrase" c.bastion_passphrase m5 in
    let (normal, m7) = migrate_csv csv c.normal_users_csv id "normal_users" m6 in
    let (large, m8) = migrate_csv csv c.large_users_csv id "large_users" m7 in
    let (download, m9) = migrate_csv csv c.download_users_csv id "download_users" m8 in
    (
      record {
        target_password = target;
        private_key_pem = key;
        private_key_passphrase = phrase;
        bastion_pass = bastion;
        bastion_passphrase = bastion_phrase;
        bastion_private_key_pem = bastion_key;
        normal_users_csv = normal;
        large_users_csv = large;
        download_users_csv = download;
      },
      m9,
    )

-- The loop over the schedules; `saves` says of which schedule the file can be written. A
-- schedule that is not written stays as it was on the disk.
unfoldable pub migrate_schedules :
    Csv → (String → Bool) → List Schedule → Migration → List Schedule × Migration
unfolding migrate_credentials
migrate_schedules csv saves [] m = ([], m)
migrate_schedules csv saves (s ∷ ss) m =
    let (config, m1) = migrate_credentials csv s.id s.config (record m { changed = false }) in
    let ok = saves s.id in
    let m2 : Migration =
      if m1.changed && not ok
      then record m1 { failed = m1.failed ++ not_saved s.id ∷ [] }
      else m1 in
    let (rest, m3) = migrate_schedules csv saves ss m2 in
    ((if m1.changed && ok then record s { config = config } else s) ∷ rest, m3)

-- The candidates of the rows of one list of users.
unfoldable pub row_candidates : String → String → List (List String) → List Candidate
unfolding is_ref
row_candidates id kind [] = []
row_candidates id kind ((user ∷ pass ∷ row) ∷ rows) =
    let rest = row_candidates id kind rows in
    if is_plain pass
    then record {
      schedule_id = id;
      field = str_append kind (str_append ".csv:" user);
      ref = row_ref id kind user;
    }
      ∷ rest
    else rest
row_candidates id kind (row ∷ rows) = row_candidates id kind rows

unfoldable pub csv_candidates : Csv → String → String → String → List Candidate
unfolding row_candidates
csv_candidates csv id kind body = if body == "" then [] else row_candidates id kind (csv.rows body)

unfoldable pub field_candidate : String → String → String → List Candidate
unfolding is_ref
field_candidate id field value =
    if is_plain value
    then record { schedule_id = id; field = field; ref = ref_of id field } ∷ []
    else []

-- `scheduleCandidates`; the lists of users are in a Go map, in one of its orders
unfoldable pub schedule_candidates : Csv → Schedule → List Candidate
unfolding field_candidate csv_candidates
schedule_candidates csv s =
    let c = s.config in
    field_candidate s.id "target_password" c.target_password
    ++ (field_candidate s.id "private_key_pem" c.private_key_pem
        ++ (field_candidate s.id "private_key_passphrase" c.private_key_passphrase
            ++ (field_candidate s.id "bastion_pass" c.bastion_pass
                ++ (field_candidate s.id "bastion_private_key_pem" c.bastion_private_key_pem
                    ++ (field_candidate s.id "bastion_passphrase" c.bastion_passphrase
                        ++ (csv_candidates csv s.id "normal_users" c.normal_users_csv
                            ++ (csv_candidates csv s.id "large_users" c.large_users_csv
                                ++ csv_candidates csv s.id "download_users"
                                    c.download_users_csv)))))))

-- `applyScheduleMigrations`: the schedules are written before the vault, whose `Save` is tried
-- once at the end and its error dropped. The save is a parameter here.
module _ {Files : Type 0} (save_vault : Files → Vault → Files × Vault × Option VaultError) where
  unfoldable pub apply_migrations :
      Csv → (String → Bool) → List Schedule → Vault → Files → List Schedule × Migration × Files
  unfolding migrate_schedules
  apply_migrations csv saves schedules v files =
      let (written, m) =
        migrate_schedules csv saves schedules
          (record { vault = v; migrated = 0; changed = false; failed = [] }) in
      let (after, saved, e) = save_vault files m.vault in
      if ltb 0 m.migrated then (written, record m { vault = saved }, after) else (written, m, files)
