-- ===== src/Vault/Migrate/Counted.antt =====
-- web/vault_migrate.go: the candidates of the scan against what the migration moves.
use utilities.Base.{
  ℕ, ◌+◌, String, Bool-cases, inl, inr, List, [], ◌∷◌, ◌++◌, length, length-append, ◌≡◌, refl, ◌∙◌,
  str_append, string_keyed, ◌==◌, arith,
}
use utilities.Vault.Refs.{Csv}
use utilities.Vault.Migrate.{
  Migration, Schedule, Candidate, is_plain, row_ref, move_scalar, migrate_row, migrate_rows,
  migrate_csv, migrate_credentials, row_candidates, csv_candidates, field_candidate,
  schedule_candidates,
}
use utilities.Vault.Migrate.Row.{moved, stored-set_secret}

-- `n` more credentials, and no failure.
abbrev pub HasMoved : Migration → ℕ → Migration → Type 0
HasMoved before n after = (after.migrated ≡ before.migrated + n) × (after.failed ≡ before.failed)

HasMoved-trans :
    (a b c : Migration) (i j n : ℕ) → HasMoved a i b → HasMoved b j c → i + j ≡ n → HasMoved a n c
HasMoved-trans a b c i j n (first, kept) (second, still) e = (omega arith, still ∙ kept)

move_scalar-HasMoved :
    (id field value : String) (m : Migration)
    → HasMoved m (length (field_candidate id field value)) (move_scalar id field value m).1
unfolding field_candidate move_scalar
move_scalar-HasMoved id field value m = elim (Bool-cases (is_plain value)) [
  | inr kept ↦ rw (field_candidate, move_scalar, kept) (omega arith, refl)
  | inl plain ↦
      let label = str_append id (str_append "/" field) in
      rw (field_candidate, move_scalar, plain, stored-set_secret label id field value m plain)
        (refl, refl)
]

module _ (id kind : String) where
  migrate_rows-HasMoved :
      (rows : List (List String)) (m : Migration)
      → HasMoved m (length (row_candidates id kind rows)) (migrate_rows id kind rows m).1
  unfolding row_candidates migrate_rows migrate_row
  migrate_rows-HasMoved [] m = (omega arith, refl)
  migrate_rows-HasMoved ([] ∷ rows) m = migrate_rows-HasMoved rows m
  migrate_rows-HasMoved ((user ∷ []) ∷ rows) m = migrate_rows-HasMoved rows m
  migrate_rows-HasMoved ((user ∷ pass ∷ rest) ∷ rows) m = elim (Bool-cases (is_plain pass)) [
    | inr kept ↦ rw (row_candidates, migrate_rows, migrate_row, kept) (migrate_rows-HasMoved rows m)
    | inl plain ↦
        let field = str_append kind (str_append "." user) in
        let ref = row_ref id kind user in
        let (count, still) = migrate_rows-HasMoved rows (moved ref pass m) in
        rw
          (
            row_candidates,
            migrate_rows,
            migrate_row,
            plain,
            stored-set_secret ref id field pass m plain,
          )
          (omega arith, still)
  ]

  migrate_csv-HasMoved :
      (csv : Csv) (body : String) (m : Migration)
      → HasMoved m (length (csv_candidates csv id kind body)) (migrate_csv csv body id kind m).1
  unfolding csv_candidates migrate_csv
  migrate_csv-HasMoved csv body m = elim (Bool-cases (body == "")) [
    | inl empty ↦ rw (csv_candidates, migrate_csv, empty) (omega arith, refl)
    | inr given ↦ rw (csv_candidates, migrate_csv, given) (migrate_rows-HasMoved (csv.rows body) m)
  ]

-- Nine lists after one another, and nine steps.
length-append9 :
    (a b c d e f g h i : List Candidate)
    → length (a ++ (b ++ (c ++ (d ++ (e ++ (f ++ (g ++ (h ++ i))))))))
      ≡ length a
        + length b
        + length c
        + length d
        + length e
        + length f
        + length g
        + length h
        + length i
length-append9 a b c d e f g h i = omega (
  arith,
  length-append a (b ++ (c ++ (d ++ (e ++ (f ++ (g ++ (h ++ i))))))),
  length-append b (c ++ (d ++ (e ++ (f ++ (g ++ (h ++ i)))))),
  length-append c (d ++ (e ++ (f ++ (g ++ (h ++ i))))),
  length-append d (e ++ (f ++ (g ++ (h ++ i)))),
  length-append e (f ++ (g ++ (h ++ i))),
  length-append f (g ++ (h ++ i)),
  length-append g (h ++ i),
  length-append h i,
)

-- The migration of a schedule moves as many credentials as the scan has listed for it, and it
-- fails to store none of them.
pub migrate_credentials-HasMoved :
    (csv : Csv) (s : Schedule) (m : Migration)
    → HasMoved m (length (schedule_candidates csv s)) (migrate_credentials csv s.id s.config m).1
unfolding schedule_candidates migrate_credentials
migrate_credentials-HasMoved csv s m =
    let c = s.config in
    let m1 = (move_scalar s.id "target_password" c.target_password m).1 in
    let m2 = (move_scalar s.id "private_key_pem" c.private_key_pem m1).1 in
    let m3 = (move_scalar s.id "private_key_passphrase" c.private_key_passphrase m2).1 in
    let m4 = (move_scalar s.id "bastion_pass" c.bastion_pass m3).1 in
    let m5 = (move_scalar s.id "bastion_private_key_pem" c.bastion_private_key_pem m4).1 in
    let m6 = (move_scalar s.id "bastion_passphrase" c.bastion_passphrase m5).1 in
    let m7 = (migrate_csv csv c.normal_users_csv s.id "normal_users" m6).1 in
    let m8 = (migrate_csv csv c.large_users_csv s.id "large_users" m7).1 in
    let h1 = move_scalar-HasMoved s.id "target_password" c.target_password m in
    let h2 = move_scalar-HasMoved s.id "private_key_pem" c.private_key_pem m1 in
    let h3 = move_scalar-HasMoved s.id "private_key_passphrase" c.private_key_passphrase m2 in
    let h4 = move_scalar-HasMoved s.id "bastion_pass" c.bastion_pass m3 in
    let h5 = move_scalar-HasMoved s.id "bastion_private_key_pem" c.bastion_private_key_pem m4 in
    let h6 = move_scalar-HasMoved s.id "bastion_passphrase" c.bastion_passphrase m5 in
    let h7 = migrate_csv-HasMoved s.id "normal_users" csv c.normal_users_csv m6 in
    let h8 = migrate_csv-HasMoved s.id "large_users" csv c.large_users_csv m7 in
    let h9 = migrate_csv-HasMoved s.id "download_users" csv c.download_users_csv m8 in
    (
      rw (length-append9 _ _ _ _ _ _ _ _ _)
          (omega (arith, h1.0, h2.0, h3.0, h4.0, h5.0, h6.0, h7.0, h8.0, h9.0)),
      h9.1 ∙ h8.1 ∙ h7.1 ∙ h6.1 ∙ h5.1 ∙ h4.1 ∙ h3.1 ∙ h2.1 ∙ h1.1,
    )
