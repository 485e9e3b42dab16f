-- ===== src/Runner/Disable/Streak.antt =====
-- runner.go: disablePolicy over a sequence of outcomes, and a specification of one account that
-- counts its account-level failures since its last success.
use utilities.Base.{
  ℕ, ◌+◌, ◌≤◌, ◌<◌, ◌≡◌, refl, sym, ap, ◌∙◌, String, Bool, true, false, not, ◌&&◌, ◌||◌, none, some,
  List, [], ◌∷◌, lookup-insert, ◌==◌, string_keyed, ltb, leb, if◌then◌else◌, arith, Bool-cases,
  Option-cases, inl, inr,
}
use utilities.Runner.Disable.{
  UserStatus, DisablePolicy, status, put, on_success, account_level_failure_code, fail_status,
  on_failure_for, is_disabled, is_download,
}

pub data Outcome : Type 0 where
  succeeded : String → String → Outcome
  failed : String → String → String → String → ℕ → Outcome

unfoldable pub observe : DisablePolicy → Outcome → DisablePolicy
observe p (succeeded user kind) = on_success p user kind
observe p (failed user kind code file now) = (on_failure_for p user kind code file now).0

unfoldable pub observe_all : DisablePolicy → List Outcome → DisablePolicy
unfolding observe
observe_all p [] = p
observe_all p (o ∷ os) = observe_all (observe p o) os

-- The two kinds share no status.
abbrev pub same_account : String → String → String → String → Bool
same_account user kind user' kind' =
    user == user' && (if is_download kind then is_download kind' else not (is_download kind'))

-- The specification: the current streak of an account, and whether one ever reached the threshold.
pub record Account : Type 0 where
  pub streak : ℕ
  pub out : Bool

unfoldable pub account_step : ℕ → String → String → Account → Outcome → Account
account_step threshold user kind a (succeeded u k) =
    if same_account user kind u k then record a { streak = 0 } else a
account_step threshold user kind a (failed u k code file now) =
    if same_account user kind u k && account_level_failure_code code
    then record {
      streak = a.streak + 1;
      out = a.out || (ltb 0 threshold && leb threshold (a.streak + 1));
    }
    else a

unfoldable pub account_run : ℕ → String → String → Account → List Outcome → Account
unfolding account_step
account_run threshold user kind a [] = a
account_run threshold user kind a (o ∷ os) =
    account_run threshold user kind (account_step threshold user kind a o) os

abbrev pub view : UserStatus → Account
view s = record { streak = s.consecutive; out = s.disabled }

-- The status of an account after a change of some account's status.
status-put :
    (p : DisablePolicy) (user kind user' kind' : String) (s : UserStatus)
    → status (put p user' kind' s) user kind
      ≡ (if same_account user kind user' kind' then some s else status p user kind)
unfolding status
status-put p user kind user' kind' s = ground (
  arith,
  lookup-insert user' user s p.dl,
  lookup-insert user' user s p.up,
  string_keyed.same_iff user user',
  string_keyed.same_iff user' user,
)

status-same_account :
    (p : DisablePolicy) (user kind user' kind' : String)
    → same_account user kind user' kind' ≡ true
    → status p user' kind' ≡ status p user kind
unfolding status
status-same_account p user kind user' kind' h = ground (arith, string_keyed.same_iff user user')

abbrev Follows : DisablePolicy → String → String → Account → Type 0
Follows p user kind a = (s : UserStatus) × (status p user kind ≡ some s) × (view s ≡ a)

-- A put on the account itself, or on another.
put-Follows :
    (p : DisablePolicy) (user kind u k : String) (s t : UserStatus)
    → status p user kind ≡ some s
    → Follows (put p u k t) user kind (if same_account user kind u k then view t else view s)
put-Follows p user kind u k s t h = elim (Bool-cases (same_account user kind u k)) [
  | inl e ↦ (t, status-put p user kind u k t ∙ rw e refl, rw e refl)
  | inr e ↦ (s, status-put p user kind u k t ∙ rw e h, rw e refl)
]

view-fail_status :
    (threshold : ℕ) (code file : String) (now : ℕ) (s : UserStatus)
    → view (fail_status threshold code file now s).0 ≡ (
        if account_level_failure_code code
        then record {
          streak = s.consecutive + 1;
          out = s.disabled || (ltb 0 threshold && leb threshold (s.consecutive + 1));
        }
        else view s)
unfolding fail_status
view-fail_status threshold code file now s = ground arith

-- Both calls change the status of one account, if it is known.
update : DisablePolicy → String → String → (UserStatus → UserStatus) → DisablePolicy
update p u k change = elim (status p u k) [ none ↦ p | some s ↦ put p u k (change s) ]

update-Follows :
    (p : DisablePolicy) (user kind u k : String) (s : UserStatus) (change : UserStatus → UserStatus)
    → status p user kind ≡ some s
    → Follows
        (update p u k change)
        user
        kind
        (if same_account user kind u k then view (change s) else view s)
unfolding update
update-Follows p user kind u k s change h = elim (Option-cases (status p u k)) [
  | inl e ↦ elim (Bool-cases (same_account user kind u k)) [
    | inl same ↦ cc (status-same_account p user kind u k same)
    | inr other ↦ rw (e, update) (s, h, rw other refl)
  ]
  | inr (t, e) ↦
      rw (e, update)
        (elim (Bool-cases (same_account user kind u k)) [
          | inl same ↦
              let known : s ≡ t = ground (arith, status-same_account p user kind u k same) in
              rw known
                (put-Follows p user kind u k t (change t) (status_known p user kind u k t same e))
          | inr other ↦ rw other (simp other at (put-Follows p user kind u k s (change t) h))
        ])
]
  where
    status_known :
        (p : DisablePolicy) (user kind u k : String) (t : UserStatus)
        → same_account user kind u k ≡ true
        → status p u k ≡ some t
        → status p user kind ≡ some t
    status_known p user kind u k t same e = sym (status-same_account p user kind u k same) ∙ e

observe-update :
    (p : DisablePolicy) (o : Outcome)
    → observe p o ≡ elim o [
      | succeeded u k ↦ update p u k (λ s. record s { consecutive = 0 })
      | failed u k code file now ↦ update p u k (λ s. (fail_status p.threshold code file now s).0)
    ]
unfolding observe update on_success on_failure_for
observe-update p (succeeded u k) = refl
observe-update p (failed u k code file now) = elim (Option-cases (status p u k)) [
  | inl e ↦ rw (e, observe, on_failure_for, update) refl
  | inr (t, e) ↦ rw (e, observe, on_failure_for, update) refl
]

observe-Follows :
    (p : DisablePolicy) (user kind : String) (s : UserStatus) (o : Outcome)
    → status p user kind ≡ some s
    → Follows (observe p o) user kind (account_step p.threshold user kind (view s) o)
unfolding account_step
observe-Follows p user kind s (succeeded u k) h =
    rw (observe-update p (succeeded u k)) (update-Follows p user kind u k s _ h)
observe-Follows p user kind s (failed u k code file now) h =
    let (t, known, seen) =
      update-Follows p user kind u k s (λ r. (fail_status p.threshold code file now r).0) h in
    (t, rw (observe-update p (failed u k code file now)) known, seen ∙ counted)
  where
    counted :
        (if same_account user kind u k
          then view (fail_status p.threshold code file now s).0
          else view s)
        ≡ account_step p.threshold user kind (view s) (failed u k code file now)
    counted = ground (arith, view-fail_status p.threshold code file now s)

threshold-observe : (p : DisablePolicy) (o : Outcome) → (observe p o).threshold ≡ p.threshold
unfolding update
threshold-observe p (succeeded u k) =
    rw (observe-update p (succeeded u k)) (ground (arith, Option-cases (status p u k)))
threshold-observe p (failed u k code file now) =
    rw (observe-update p (failed u k code file now)) (ground (arith, Option-cases (status p u k)))

observe_all-Follows :
    (p : DisablePolicy) (user kind : String) (s : UserStatus) (os : List Outcome)
    → status p user kind ≡ some s
    → Follows (observe_all p os) user kind (account_run p.threshold user kind (view s) os)
unfolding observe_all account_run
observe_all-Follows p user kind s [] h = (s, h, refl)
observe_all-Follows p user kind s (o ∷ os) h =
    let (t, known, seen) = observe-Follows p user kind s o h in
    let (u, last, done) = observe_all-Follows (observe p o) user kind t os known in
    (u, last, done ∙ rw (threshold-observe p o, seen) refl)

-- After any outcomes, of this account and of others in any order, an account that the policy knows
-- counts its streak of account-level failures since its last success, and it is disabled if it was,
-- or if a streak since then reached a positive threshold.
pub observe_all-account_run :
    (p : DisablePolicy) (user kind : String) (s : UserStatus) (os : List Outcome)
    → status p user kind ≡ some s
    → let a = account_run p.threshold user kind (view s) os in
      (is_disabled (observe_all p os) user kind ≡ a.out)
      × (t : UserStatus) × (status (observe_all p os) user kind ≡ some t)
      × (t.consecutive ≡ a.streak)
unfolding is_disabled
observe_all-account_run p user kind s os h =
    let (t, last, done) = observe_all-Follows p user kind s os h in
    (rw (last, is_disabled) (ap (λ a. a.out) done), t, last, ap (λ a. a.streak) done)

-- The account-level failures of one account.
unfoldable pub account_failures : String → String → List Outcome → ℕ
account_failures user kind [] = 0
account_failures user kind (succeeded u k ∷ os) = account_failures user kind os
account_failures user kind (failed u k code file now ∷ os) =
    if same_account user kind u k && account_level_failure_code code
    then account_failures user kind os + 1
    else account_failures user kind os

account_run_needs :
    (n : ℕ) (user kind : String) (a : Account) (os : List Outcome)
    → a.out ≡ false
    → (account_run n user kind a os).out ≡ true
    → (0 < n) × (n ≤ a.streak + account_failures user kind os)
unfolding account_run account_failures
account_run_needs n user kind a [] f h = cc
account_run_needs n user kind a (succeeded u k ∷ os) f h =
    ground (arith, account_run_needs n user kind (account_step n user kind a (succeeded u k)) os)
account_run_needs n user kind a (failed u k code file now ∷ os) f h = ground (
  arith,
  account_run_needs n user kind (account_step n user kind a (failed u k code file now)) os,
)

-- A known account that started afresh is disabled only with a positive threshold, and after at least
-- that many account-level failures of its own.
pub disabled_needs_failures :
    (p : DisablePolicy) (user kind : String) (s : UserStatus) (os : List Outcome)
    → status p user kind ≡ some s
    → s.disabled ≡ false
    → s.consecutive ≡ 0
    → is_disabled (observe_all p os) user kind ≡ true
    → (0 < p.threshold) × (p.threshold ≤ account_failures user kind os)
disabled_needs_failures p user kind s os known fresh zero_streak out =
    let h =
      account_run_needs p.threshold user kind (view s) os fresh
        (sym (observe_all-account_run p user kind s os known).0 ∙ out) in
    (h.0, omega arith)
