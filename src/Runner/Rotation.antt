-- ===== src/Runner/Rotation.antt =====
-- runner.go: the round-robin choices of the dispatcher, over the users and over a user's patterns.
-- A cursor is a uint64.
pub mod Fair
pub mod Active
use utilities.Base.{
  ℕ, zero, suc, ◌+◌, ◌-◌, ◌*◌, ◌/◌, ◌%◌, ◌^◌, String, Bool, true, false, not, Option, none, some,
  List, [], ◌∷◌, Dict, lookup, insert, string_keyed, str_append, length, get_elem?, eqb,
  if◌then◌else◌,
}
use utilities.Runner.Disable.{DisablePolicy, is_disabled}

abbrev pub u64 : ℕ → ℕ
u64 n = n % 2 ^ 64

pub record UserCreds : Type 0 where
  pub username : String
  pub password : String
  pub patterns : List String

-- Whether `pickActiveUser` may pick the user; `none` is a nil policy.
unfoldable pub is_active : Option DisablePolicy → UserCreds → Bool
is_active none u = true
is_active (some p) u = not (is_disabled p u.username "upload")

-- The loop of `pickActiveUser`, on the tries that are left: the pick and the cursor.
unfoldable pub pick_from : ℕ → List UserCreds → ℕ → Option DisablePolicy → Option UserCreds × ℕ
pick_from zero users i disable = (none, i)
pick_from (suc tries) users i disable = elim (get_elem? users (i % length users)) [
  | none ↦ (none, i)
  | some u ↦
      let rest = pick_from tries users (u64 (i + 1)) disable in
      if is_active disable u then (some u, u64 (i + 1)) else rest
]

unfoldable pub pick_active_user : List UserCreds → ℕ → Option DisablePolicy → Option UserCreds × ℕ
unfolding pick_from
pick_active_user users i disable = pick_from (length users) users i disable

-- The cursors of `nextPattern`, one for each kind and user.
abbrev pub cursor_key : String → String → String
cursor_key kind username = str_append kind (str_append ":" username)

abbrev pub cursor_at : Dict String ℕ → String → ℕ
cursor_at cursors key = elim (lookup key cursors) [ none ↦ 0 | some n ↦ n ]

-- `none` is the panic of a user with no pattern.
unfoldable pub next_pattern : Dict String ℕ → String → UserCreds → Option (Dict String ℕ × String)
next_pattern cursors kind u =
    let key = cursor_key kind u.username in
    let cursor = cursor_at cursors key in
    elim u.patterns [
      | [] ↦ none
      | p ∷ [] ↦ some (cursors, p)
      | p ∷ q ∷ ps ↦ elim (get_elem? (p ∷ q ∷ ps) (cursor % length (p ∷ q ∷ ps))) [
        | none ↦ none
        | some chosen ↦ some (insert key (u64 (cursor + 1)) cursors, chosen)
      ]
    ]
