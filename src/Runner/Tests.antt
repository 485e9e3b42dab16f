-- ===== src/Runner/Tests.antt =====
-- The theorems at concrete users, outcomes and records.
use utilities.Base.{
  ℕ, ◌≤◌, ◌<◌, ◌≡◌, ◌⊎◌, refl, String, true, false, Option, none, some, List, [], ◌∷◌, Dict, lookup,
  insert, string_keyed, pos, get_elem?, ◌%◌, arith, inl, inr, eqb, if◌then◌else◌,
}
use utilities.Report.Record.{FileRecord}
use utilities.Runner.Disable.{
  UserStatus, DisablePolicy, new_status, status, is_disabled, on_failure_for,
}
use utilities.Runner.Disable.Streak.{
  Outcome, failed, observe_all, account_run, account_failures, view, observe_all-account_run,
  disabled_needs_failures,
}
use utilities.Runner.Rotation.{UserCreds, next_pattern, pick_active_user}
use utilities.Runner.Rotation.Active.{Picks, AllRetired, pick_active_user-Decides}
use utilities.Runner.Rotation.Fair.{after_calls, next_pattern-Rotates}
use utilities.Runner.Pool.{slot_get, get_loop, pool_get}
use utilities.Runner.Pool.Around.{pool_get-inl}
use utilities.Runner.Final.{
  Deadline, is_record_final, later, is_record_final-Stable, is_record_final-Expires,
}

abbrev policy : DisablePolicy
policy = record {
  threshold = 2;
  up = ("alice", new_status "alice" "upload") ∷ ("bob", new_status "bob" "upload") ∷ [];
  dl = [];
}

abbrev outcomes : List Outcome
outcomes =
    failed "alice" "upload" "POOL_EMPTY" "f1" 1
    ∷ failed "bob" "upload" "POOL_EMPTY" "f2" 2
    ∷ failed "alice" "upload" "POOL_EMPTY" "f3" 3
    ∷ []

test_alice : is_disabled (observe_all policy outcomes) "alice" "upload" ≡ true
unfolding is_disabled observe_all lookup insert new_status status on_failure_for
test_alice = refl

test_bob : is_disabled (observe_all policy outcomes) "bob" "upload" ≡ false
unfolding is_disabled observe_all lookup insert new_status status on_failure_for
test_bob = refl

observe_all-account_run_example :
    let a = account_run 2 "alice" "upload" (view (new_status "alice" "upload")) outcomes in
    (is_disabled (observe_all policy outcomes) "alice" "upload" ≡ a.out)
    × (t : UserStatus) × (status (observe_all policy outcomes) "alice" "upload" ≡ some t)
    × (t.consecutive ≡ a.streak)
unfolding status lookup
observe_all-account_run_example =
    observe_all-account_run policy "alice" "upload" (new_status "alice" "upload") outcomes refl

test_disabled_needs_failures : (0 < 2) × (2 ≤ account_failures "alice" "upload" outcomes)
unfolding status lookup new_status
test_disabled_needs_failures =
    disabled_needs_failures policy "alice" "upload" (new_status "alice" "upload") outcomes refl refl
      refl test_alice

abbrev users : List UserCreds
users =
    record { username = "alice"; password = "a"; patterns = "p1" ∷ "p2" ∷ "p3" ∷ [] }
    ∷ record { username = "bob"; password = "b"; patterns = "q" ∷ [] }
    ∷ []

pick_active_user-Decides_example :
    Picks 2 users 4 (some policy) (pick_active_user users 4 (some policy))
    ⊎ ((pick_active_user users 4 (some policy)).0 ≡ none) × AllRetired 2 users 4 (some policy)
pick_active_user-Decides_example =
    pick_active_user-Decides users 4 (some policy) (omega arith) (omega arith)

test_next_pattern_rotates :
    (before after : Dict String ℕ) × (p : String) × (after_calls 4 "normal"
        (record { username = "alice"; password = "a"; patterns = "p1" ∷ "p2" ∷ "p3" ∷ [] })
        []
      ≡ some before)
    × (next_pattern before "normal"
          (record { username = "alice"; password = "a"; patterns = "p1" ∷ "p2" ∷ "p3" ∷ [] })
        ≡ some (after, p))
    × (get_elem? ("p1" ∷ "p2" ∷ "p3" ∷ []) (4 % 3) ≡ some p)
unfolding lookup
test_next_pattern_rotates =
    next_pattern-Rotates 4 [] "normal"
      (record { username = "alice"; password = "a"; patterns = "p1" ∷ "p2" ∷ "p3" ∷ [] })
      (omega arith) (omega arith) refl

abbrev uploaded : FileRecord
uploaded = record {
  user = "alice";
  kind = "normal";
  filename = "f";
  start_time = 1_000;
  end_time = 2_000;
  size_bytes = 10;
  expected_size = 10;
  incomplete = false;
  speed_mbps = 0;
  track_id = "t1";
  track_id_at = 3_000;
  track_id_wait = pos 1_000;
  in_slowdown = false;
  error = "";
  error_code = "";
  filename_id = "";
  download_user = "";
  download_available_at = 0;
  download_start_time = 0;
  download_end_time = 0;
  download_size_bytes = 0;
  download_speed_mbps = 0;
  download_wait = pos 0;
  download_error = "";
  upload_sha256 = "";
  download_sha256 = "";
  hash_match = false;
}

abbrev deadline : Deadline
deadline = record {
  has_download = true;
  track_id_timeout = 300_000_000_000;
  poll_interval = 3_000_000_000;
  now = 300_000_004_000;
}

test_is_record_final_expires : (is_record_final deadline uploaded).1 ≡ true
test_is_record_final_expires = is_record_final-Expires deadline uploaded refl refl (omega arith)

test_is_record_final_stable :
    (is_record_final (later deadline 5) (is_record_final deadline uploaded).0).1 ≡ true
unfolding is_record_final
test_is_record_final_stable = is_record_final-Stable deadline uploaded 5 refl

-- A pool of two slots, and a server that cannot be reached, or only from the second one.
abbrev unreachable : ℕ → String ⊎ ℕ
unreachable i = inl "refused"

abbrev half_reachable : ℕ → String ⊎ ℕ
half_reachable i = if eqb i 1 then inr 7 else inl "refused"

test_pool_get : pool_get half_reachable (none ∷ none ∷ []) 0 ≡ (inr (7, 1), 1, none ∷ some 7 ∷ [])
unfolding pool_get get_loop slot_get
test_pool_get = refl

abbrev dead_slots : List (Option ℕ)
dead_slots = none ∷ none ∷ []

none_served : (pool_get unreachable dead_slots 1).0 ≡ inl (some "refused")
unfolding pool_get get_loop slot_get
none_served = refl

test_pool_get_inl : (f : String) × (get_elem? dead_slots 0 ≡ some none) × (unreachable 0 ≡ inl f)
test_pool_get_inl =
    pool_get-inl unreachable dead_slots 1 (some "refused") none_served 0 (omega arith)
