-- ===== src/Vault/Migrate/Rows.antt =====
-- web/vault_migrate.go: a list of users that moves into the vault and is resolved from it.
use text.Mathlib.TextLemmas.{append_cancel_left}
use utilities.Base.{
  String, true, false, Bool-cases, Option, some, inl, inr, List, [], ◌∷◌, All, map, ◌≡◌, ◌≢◌, refl,
  ap, ◌∙◌, str_append, lookup-insert, string_keyed, same_refl, ◌==◌,
}
use utilities.Vault.Store.{Vault, get}
use utilities.Vault.Refs.{ref_prefix, is_ref, resolve_string, resolve_str, resolve_row}
use utilities.Vault.Refs.Marker.{resolve_str-append, resolve_str-plain, resolve_string-cases}
use utilities.Vault.Migrate.{Migration, is_plain, row_ref, with_pass, migrate_row, migrate_rows}
use utilities.Vault.Migrate.Row.{moved, stored-set_secret}

-- A row of another user, and rows of which no two have the same user.
abbrev pub Differs : String → List String → Type 0
Differs name (user ∷ pass ∷ rest) = user ≢ name
Differs name _ = Unit

abbrev pub AreDistinct : List (List String) → Type 0
AreDistinct [] = Unit
AreDistinct ((user ∷ pass ∷ rest) ∷ rows) = All (Differs user) rows × AreDistinct rows
AreDistinct (row ∷ rows) = AreDistinct rows

-- The password of the row is no marker.
abbrev pub HasNoMarker : List String → Type 0
HasNoMarker (user ∷ pass ∷ rest) = is_ref pass ≡ false
HasNoMarker _ = Unit

row_ref-ne :
    (id kind user name : String)
    → user ≢ name
    → (row_ref id kind user == row_ref id kind name) ≡ false
row_ref-ne id kind user name h = elim (Bool-cases (row_ref id kind user == row_ref id kind name)) [
  | inr differ ↦ differ
  | inl same ↦
      let e0 = (string_keyed.same_iff (row_ref id kind user) (row_ref id kind name)).0 same in
      let e1 = append_cancel_left "schedule:" _ _ e0 in
      let e2 = append_cancel_left id _ _ e1 in
      let e3 = append_cancel_left "/" _ _ e2 in
      let e4 = append_cancel_left kind _ _ e3 in absurd (h (append_cancel_left "." _ _ e4))
]

resolve_row-str :
    (v : Option Vault) (user pass : String) (rest : List String)
    → resolve_row v (user ∷ pass ∷ rest) ≡ user ∷ resolve_str v pass ∷ rest
unfolding resolve_row resolve_string
resolve_row-str v user pass rest = elim (resolve_string-cases v pass) [
  | inl (true, e) ↦ rw e refl
  | inl (false, e) ↦ rw e refl
  | inr (plain, e) ↦ rw e refl
]

module _ (id kind : String) where
  migrate_row-moved :
      (user pass : String) (rest : List String) (m : Migration)
      → is_plain pass ≡ true
      → migrate_row id kind (user ∷ pass ∷ rest) m ≡ (
        user ∷ str_append ref_prefix (row_ref id kind user) ∷ rest,
        moved (row_ref id kind user) pass m,
      )
  unfolding migrate_row
  migrate_row-moved user pass rest m plain =
      rw (migrate_row, plain)
        (ap (with_pass user rest) (
          stored-set_secret (row_ref id kind user) id (str_append kind (str_append "." user)) pass m
            plain))

  migrate_row-kept :
      (user pass : String) (rest : List String) (m : Migration)
      → is_plain pass ≡ false
      → migrate_row id kind (user ∷ pass ∷ rest) m ≡ (user ∷ pass ∷ rest, m)
  unfolding migrate_row
  migrate_row-kept user pass rest m kept = rw (migrate_row, kept) refl

  -- A row writes the entry of its own user.
  get-migrate_row :
      (row : List String) (name : String) (m : Migration)
      → Differs name row
      → get (migrate_row id kind row m).1.vault (row_ref id kind name)
        ≡ get m.vault (row_ref id kind name)
  unfolding get migrate_row
  get-migrate_row [] name m h = refl
  get-migrate_row (user ∷ []) name m h = refl
  get-migrate_row (user ∷ pass ∷ rest) name m h = elim (Bool-cases (is_plain pass)) [
    | inr kept ↦
        ap (λ r. get r.1.vault (row_ref id kind name)) (migrate_row-kept user pass rest m kept)
    | inl plain ↦
        ap (λ r. get r.1.vault (row_ref id kind name)) (migrate_row-moved user pass rest m plain)
        ∙ lookup-insert (row_ref id kind user) (row_ref id kind name) pass m.vault.secrets
        ∙ rw (row_ref-ne id kind user name h) refl
  ]

  get-migrate_rows :
      (rows : List (List String)) (name : String) (m : Migration)
      → All (Differs name) rows
      → get (migrate_rows id kind rows m).1.vault (row_ref id kind name)
        ≡ get m.vault (row_ref id kind name)
  unfolding migrate_rows
  get-migrate_rows [] name m h = refl
  get-migrate_rows (row ∷ rows) name m (first, rest) =
      get-migrate_rows rows name (migrate_row id kind row m).1 rest
      ∙ get-migrate_row row name m first

  -- The row of a list, resolved by a vault that has what the row has stored.
  resolve_row-migrate_row :
      (user pass : String) (rest : List String) (m : Migration) (v : Vault)
      → is_ref pass ≡ false
      → get v (row_ref id kind user)
        ≡ get (migrate_row id kind (user ∷ pass ∷ rest) m).1.vault (row_ref id kind user)
      → resolve_row (some v) (migrate_row id kind (user ∷ pass ∷ rest) m).0 ≡ user ∷ pass ∷ rest
  unfolding get
  resolve_row-migrate_row user pass rest m v unmarked same = elim (Bool-cases (is_plain pass)) [
    | inr kept ↦
        ap (λ r. resolve_row (some v) r.0) (migrate_row-kept user pass rest m kept)
        ∙ resolve_row-str (some v) user pass rest
        ∙ ap (λ p. user ∷ p ∷ rest) (resolve_str-plain (some v) pass unmarked)
    | inl plain ↦
        let made = migrate_row-moved user pass rest m plain in
        let ref = row_ref id kind user in
        let held : get v ref ≡ some pass =
          same
          ∙ ap (λ r. get r.1.vault ref) made
          ∙ lookup-insert ref ref pass m.vault.secrets
          ∙ rw (same_refl ref) refl in
        ap (λ r. resolve_row (some v) r.0) made
        ∙ resolve_row-str (some v) user (str_append ref_prefix ref) rest
        ∙ ap (λ p. user ∷ p ∷ rest) (resolve_str-append v ref pass held)
  ]

  -- Rows that name each user once, none of them with a marker yet, come back as they were when
  -- the vault that the migration has filled resolves what the migration has written.
  pub resolve-migrate_rows :
      (rows : List (List String)) (m : Migration)
      → AreDistinct rows
      → All HasNoMarker rows
      → map
          (resolve_row (some (migrate_rows id kind rows m).1.vault))
          (migrate_rows id kind rows m).0
        ≡ rows
  unfolding migrate_rows resolve_row migrate_row
  resolve-migrate_rows [] m distinct plain = refl
  resolve-migrate_rows ([] ∷ rows) m distinct (_, plain) =
      ap (λ l. [] ∷ l) (resolve-migrate_rows rows m distinct plain)
  resolve-migrate_rows ((user ∷ []) ∷ rows) m distinct (_, plain) =
      ap (λ l. (user ∷ []) ∷ l) (resolve-migrate_rows rows m distinct plain)
  resolve-migrate_rows ((user ∷ pass ∷ rest) ∷ rows) m (others, distinct) (unmarked, plain) =
      let m1 = (migrate_row id kind (user ∷ pass ∷ rest) m).1 in
      let v = (migrate_rows id kind rows m1).1.vault in
      let first =
        resolve_row-migrate_row user pass rest m v unmarked
          (get-migrate_rows rows user m1 others) in
      ap (λ r. r ∷ map (resolve_row (some v)) (migrate_rows id kind rows m1).0) first
      ∙ ap (λ l. (user ∷ pass ∷ rest) ∷ l) (resolve-migrate_rows rows m1 distinct plain)
