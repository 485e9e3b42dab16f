-- ===== src/RunConfig/Users.antt =====
-- config.go: the users of a CSV file, from the records that `encoding/csv` reads; `none` is a record
-- that it refuses. `trim` is `strings.TrimSpace`.
use utilities.Base.{
  ℕ, ◌+◌, ◌<◌, ◌≡◌, refl, subst, ◌⊎◌, inl, inr, String, Bool, true, false, ◌&&◌, Option, none, some,
  List, [], ◌∷◌, ◌==◌, string_keyed, length, keep, map, not, if◌then◌else◌, arith, Bool-cases,
}
use utilities.Runner.Rotation.{UserCreds}

pub data LineError : Type 0 where
  unreadable : LineError
  too_few_columns : LineError
  no_username : LineError
  no_pattern : LineError

pub data Parsed (A : Type 0) : Type 0 where
  parsed : A → Parsed A
  bad_line : (line : ℕ) → LineError → Parsed A

abbrev pub is_nil : List String → Bool
is_nil [] = true
is_nil (x ∷ xs) = false

-- The columns from the third on that are not blank, trimmed.
unfoldable pub patterns_of : (String → String) → List String → List String
patterns_of trim [] = []
patterns_of trim (p ∷ ps) =
    let rest = patterns_of trim ps in if trim p == "" then rest else trim p ∷ rest

unfoldable pub parse_record : (String → String) → Bool → ℕ → List String → Parsed UserCreds
unfolding patterns_of
parse_record trim require_pattern line [] = bad_line line too_few_columns
parse_record trim require_pattern line (name ∷ []) = bad_line line too_few_columns
parse_record trim require_pattern line (name ∷ password ∷ columns) =
    if require_pattern && is_nil columns
    then bad_line line too_few_columns
    else if trim name == ""
    then bad_line line no_username
    else if require_pattern && is_nil (patterns_of trim columns)
    then bad_line line no_pattern
    else parsed
        (record { username = trim name; password = password; patterns = patterns_of trim columns })

-- The loop of `parseUsersCSV`, from the record with the number `line`, the first being 1.
unfoldable pub parse_users :
    (String → String) → Bool → ℕ → List (Option (List String)) → Parsed (List UserCreds)
unfolding parse_record
parse_users trim require_pattern line [] = parsed []
parse_users trim require_pattern line (r ∷ rs) =
    let rest = parse_users trim require_pattern (line + 1) rs in
    elim r [
      | none ↦ bad_line line unreadable
      | some columns ↦ elim (parse_record trim require_pattern line columns) [
        | bad_line at e ↦ bad_line at e
        | parsed u ↦ elim rest [ bad_line at e ↦ bad_line at e | parsed us ↦ parsed (u ∷ us) ]
      ]
    ]

-- What a record says of its user: the name is the first column, trimmed, and is not blank, the
-- password is the second column as it is, and the patterns are the others, trimmed, less the blank
-- ones, of which one is left where a pattern is required.
abbrev pub IsUser : (String → String) → Bool → List String → UserCreds → Type 0
IsUser trim require_pattern [] u = ⊥
IsUser trim require_pattern (name ∷ []) u = ⊥
IsUser trim require_pattern (name ∷ password ∷ columns) u =
    (u.username ≡ trim name)
    × ((u.username == "") ≡ false)
    × (u.password ≡ password)
    × (u.patterns ≡ keep (λ p. not (p == "")) (map trim columns))
    × ((require_pattern ≡ false) ⊎ (0 < length u.patterns))

-- The records and the users, one by one.
abbrev pub AreUsers :
    (String → String) → Bool → List (Option (List String)) → List UserCreds → Type 0
AreUsers trim require_pattern [] [] = Unit
AreUsers trim require_pattern [] (u ∷ us) = ⊥
AreUsers trim require_pattern (r ∷ rs) [] = ⊥
AreUsers trim require_pattern (none ∷ rs) (u ∷ us) = ⊥
AreUsers trim require_pattern (some columns ∷ rs) (u ∷ us) =
    IsUser trim require_pattern columns u × AreUsers trim require_pattern rs us

patterns_of_kept :
    (trim : String → String) (columns : List String)
    → patterns_of trim columns ≡ keep (λ p. not (p == "")) (map trim columns)
unfolding patterns_of keep
patterns_of_kept trim [] = refl
patterns_of_kept trim (p ∷ ps) = ground (arith, patterns_of_kept trim ps)

-- What is known of a result.
abbrev OnParsed : {A : Type 0} → (A → Type 0) → Parsed A → Type 0
OnParsed P (parsed a) = P a
OnParsed P (bad_line line e) = Unit

enough :
    (require_pattern : Bool) (patterns : List String)
    → (require_pattern && is_nil patterns) ≡ false
    → (require_pattern ≡ false) ⊎ (0 < length patterns)
enough true [] h = cc
enough true (p ∷ ps) h = inr (omega arith)
enough false patterns h = inl refl

parse_record-IsUser :
    (trim : String → String) (require_pattern : Bool) (line : ℕ) (columns : List String)
    → OnParsed
        (IsUser trim require_pattern columns)
        (parse_record trim require_pattern line columns)
unfolding parse_record
parse_record-IsUser trim require_pattern line [] = tt
parse_record-IsUser trim require_pattern line (name ∷ []) = tt
parse_record-IsUser trim require_pattern line (name ∷ password ∷ columns) =
    elim (Bool-cases (require_pattern && is_nil columns)) [
      | inl e ↦ rw (e, parse_record) tt
      | inr e ↦ elim (Bool-cases (trim name == "")) [
        | inl f ↦ rw (e, parse_record, f) tt
        | inr f ↦ elim (Bool-cases (require_pattern && is_nil (patterns_of trim columns))) [
          | inl g ↦ rw (e, parse_record, f, g) tt
          | inr g ↦
              rw (e, parse_record, f, g)
                (
                  refl,
                  f,
                  refl,
                  patterns_of_kept trim columns,
                  enough require_pattern (patterns_of trim columns) g,
                )
        ]
      ]
    ]

-- The result for a record and the records behind it.
OnParsed-cons :
    (trim : String → String) (require_pattern : Bool) (columns : List String)
    (rs : List (Option (List String))) (u : Parsed UserCreds) (rest : Parsed (List UserCreds))
    → OnParsed (IsUser trim require_pattern columns) u
    → OnParsed (AreUsers trim require_pattern rs) rest
    → OnParsed (AreUsers trim require_pattern (some columns ∷ rs)) (elim u [
      | bad_line at e ↦ bad_line at e
      | parsed v ↦ elim rest [ bad_line at e ↦ bad_line at e | parsed us ↦ parsed (v ∷ us) ]
    ])
OnParsed-cons trim require_pattern columns rs (bad_line at e) rest first others = tt
OnParsed-cons trim require_pattern columns rs (parsed u) (bad_line at e) first others = tt
OnParsed-cons trim require_pattern columns rs (parsed u) (parsed us) first others = (first, others)

parse_users-AreUsers :
    (trim : String → String) (require_pattern : Bool) (line : ℕ)
    (records : List (Option (List String)))
    → OnParsed
        (AreUsers trim require_pattern records)
        (parse_users trim require_pattern line records)
unfolding parse_users
parse_users-AreUsers trim require_pattern line [] = tt
parse_users-AreUsers trim require_pattern line (none ∷ rs) = tt
parse_users-AreUsers trim require_pattern line (some columns ∷ rs) =
    OnParsed-cons trim require_pattern columns rs (parse_record trim require_pattern line columns)
      (parse_users trim require_pattern (line + 1) rs)
      (parse_record-IsUser trim require_pattern line columns)
      (parse_users-AreUsers trim require_pattern (line + 1) rs)

-- If a file of users is accepted, its records and its users agree one by one: the name is the
-- trimmed first column and not blank, the password is the second column, the patterns are the
-- trimmed columns behind it that are not blank, and there is one where a pattern is required.
pub parse_users-IsUser :
    (trim : String → String) (require_pattern : Bool) (records : List (Option (List String)))
    (us : List UserCreds)
    → parse_users trim require_pattern 1 records ≡ parsed us
    → AreUsers trim require_pattern records us
parse_users-IsUser trim require_pattern records us e =
    subst (OnParsed (AreUsers trim require_pattern records)) e
      (parse_users-AreUsers trim require_pattern 1 records)
