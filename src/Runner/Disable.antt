-- ===== src/Runner/Disable.antt =====
-- runner.go: disablePolicy, which retires a user after too many account-level failures in a row.
-- The counters are atomic in the code; a call is one step here. A policy is never nil in a run.
pub mod Streak
use utilities.Base.{
  ℕ, ◌+◌, String, Bool, true, false, not, ◌&&◌, ◌||◌, Option, none, some, List, [], ◌∷◌, ◌++◌, Dict,
  lookup, insert, has, ◌==◌, string_keyed, nat_keyed, ltb, leb, if◌then◌else◌, ℤ, pos, negsuc,
}

pub record UserStatus : Type 0 where
  pub user : String
  pub kind : String
  pub consecutive : ℕ
  pub total_failed : ℕ
  pub disabled : Bool
  pub disabled_at_nano : ℕ
  pub last_code : Option String
  pub last_at_nano : ℕ
  pub last_file : Option String

pub record DisablePolicy : Type 0 where
  pub threshold : ℕ  -- 0: never disable
  pub up : Dict String UserStatus
  pub dl : Dict String UserStatus

unfoldable pub new_status : String → String → UserStatus
new_status user kind = record {
  user = user;
  kind = kind;
  consecutive = 0;
  total_failed = 0;
  disabled = false;
  disabled_at_nano = 0;
  last_code = none;
  last_at_nano = 0;
  last_file = none;
}

-- One entry for each name; a later user of the same name changes nothing (`seen`).
unfoldable pub add_users : String → List String → Dict String UserStatus → Dict String UserStatus
unfolding new_status
add_users kind [] m = m
add_users kind (u ∷ us) m =
    add_users kind us (if has u m then m else insert u (new_status u kind) m)

-- The download users are stored one over the other.
unfoldable pub put_users : String → List String → Dict String UserStatus → Dict String UserStatus
unfolding new_status
put_users kind [] m = m
put_users kind (u ∷ us) m = put_users kind us (insert u (new_status u kind) m)

abbrev at_least_zero : ℤ → ℕ
at_least_zero (pos n) = n
at_least_zero (negsuc n) = 0

-- The users are given by their names.
unfoldable pub new_disable_policy : ℤ → List String → List String → List String → DisablePolicy
unfolding add_users put_users
new_disable_policy threshold upload large download = record {
  threshold = at_least_zero threshold;
  up = add_users "upload" large (add_users "upload" upload []);
  dl = put_users "download" download [];
}

abbrev pub is_download : String → Bool
is_download kind = kind == "download"

unfoldable pub status : DisablePolicy → String → String → Option UserStatus
status p user kind = if is_download kind then lookup user p.dl else lookup user p.up

abbrev pub put : DisablePolicy → String → String → UserStatus → DisablePolicy
put p user kind s =
    if is_download kind
    then record p { dl = insert user s p.dl }
    else record p { up = insert user s p.up }

unfoldable pub on_success : DisablePolicy → String → String → DisablePolicy
on_success p user kind = elim (status p user kind) [
  | none ↦ p
  | some s ↦ put p user kind (record s { consecutive = 0 })
]

unfoldable pub account_level_failure_code : String → Bool
account_level_failure_code code = code == "POOL_EMPTY" || code == "PANIC"

-- What a failure does to the status of its user, and whether it is the one that disables.
unfoldable pub fail_status : ℕ → String → String → ℕ → UserStatus → UserStatus × Bool
unfolding account_level_failure_code
fail_status threshold code basename now s =
    let noted = record s {
      total_failed = s.total_failed + 1;
      last_at_nano = now;
      last_code = some code;
      last_file = if basename == "" then s.last_file else some basename;
    } in
    let counted = record noted { consecutive = s.consecutive + 1 } in
    if not (account_level_failure_code code)
    then (noted, false)
    else (if (ltb 0 threshold && leb threshold (s.consecutive + 1)) && not s.disabled
        then (record counted { disabled = true; disabled_at_nano = now }, true)
        else (counted, false))

unfoldable pub on_failure_for :
    DisablePolicy → String → String → String → String → ℕ → DisablePolicy × Bool
unfolding fail_status
on_failure_for p user kind code basename now = elim (status p user kind) [
  | none ↦ (p, false)
  | some s ↦
      let (s', tripped) = fail_status p.threshold code basename now s in
      (put p user kind s', tripped)
]

unfoldable pub is_disabled : DisablePolicy → String → String → Bool
is_disabled p user kind = elim (status p user kind) [ none ↦ false | some s ↦ s.disabled ]
