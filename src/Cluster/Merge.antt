-- ===== src/Cluster/Merge.antt =====
-- cluster.go: `Status` and `mergeWorkerStatuses`. The rates are left out.
use native.Mathlib.Nat.{zero-add}
use utilities.Base.{
  ℕ, ◌+◌, ◌%◌, ◌<◌, ◌^◌, ◌≡◌, refl, ◌∙◌, String, Bool, true, false, not, ◌&&◌, Option, none, some,
  List, [], ◌∷◌, ◌++◌, map, ◌==◌, string_keyed, if◌then◌else◌, append_nil, snoc-append, arith,
}
use utilities.Cluster.Fleet.{Call, CallError, Network}
use utilities.Cluster.Coordinator.{RunningWorker, Coordinator, poll_workers}

pub record WorkerStatus : Type 0 where
  pub url : String
  pub run_id : String
  pub version : String
  pub version_mismatch : Bool
  pub active : Bool
  pub total_files : ℕ
  pub failed_files : ℕ
  pub dispatch_skips : ℕ
  pub reachable : Bool
  pub err : Option CallError

-- `started_at` is the time of the start, `workers` are the rows.
pub record Status : Type 0 where
  pub active : Bool
  pub started_at : ℕ
  pub master_version : String
  pub total_files : ℕ
  pub total_bytes : ℕ
  pub failed_files : ℕ
  pub dispatch_skips : ℕ
  pub workers : List WorkerStatus

abbrev pub is_none : Option CallError → Bool
is_none none = true
is_none (some e) = false

unfoldable pub row_of : String → RunningWorker → WorkerStatus
row_of master w = record {
  url = w.worker.url;
  run_id = w.run_id;
  version = w.version;
  version_mismatch = not (master == "") && (not (w.version == "") && not (w.version == master));
  active = w.last_stat.active;
  total_files = w.last_stat.total_files;
  failed_files = w.last_stat.failed_files;
  dispatch_skips = w.last_stat.dispatch_skips;
  reachable = is_none w.last_err;
  err = w.last_err;
}

-- Go's `+=` on an `int64`, as its 64 bits.
abbrev pub add64 : ℕ → ℕ → ℕ
add64 a b = (a + b) % 2 ^ 64

unfoldable pub merge_rows : String → Status → List RunningWorker → Status
unfolding row_of
merge_rows master out [] = out
merge_rows master out (w ∷ ws) =
    let row = row_of master w in
    merge_rows master
      (record out {
        total_files = add64 out.total_files row.total_files;
        total_bytes = add64 out.total_bytes w.last_stat.total_bytes;
        failed_files = add64 out.failed_files row.failed_files;
        dispatch_skips = add64 out.dispatch_skips row.dispatch_skips;
        workers = out.workers ++ row ∷ [];
      })
      ws

unfoldable pub merge_worker_statuses : Bool → ℕ → String → List RunningWorker → Status
unfolding merge_rows
merge_worker_statuses active started master workers =
    merge_rows master
      (record {
        active = active;
        started_at = started;
        master_version = master;
        total_files = 0;
        total_bytes = 0;
        failed_files = 0;
        dispatch_skips = 0;
        workers = [];
      })
      workers

unfoldable pub status : Network → Coordinator → List Call → Status × Coordinator × List Call
unfolding poll_workers merge_worker_statuses
status net c log =
    if c.active
    then (
      merge_worker_statuses true c.started_at c.master_version (poll_workers net c.workers log).0,
      record c { workers = (poll_workers net c.workers log).0 },
      (poll_workers net c.workers log).1,
    )
    else (merge_worker_statuses false c.started_at c.master_version c.workers, c, log)

abbrev pub sum : List ℕ → ℕ
sum [] = 0
sum (n ∷ ns) = n + sum ns

abbrev IsSmall : Status → Type 0
IsSmall s =
    (s.total_files < 2 ^ 64)
    × (s.total_bytes < 2 ^ 64)
    × (s.failed_files < 2 ^ 64)
    × (s.dispatch_skips < 2 ^ 64)

-- What some workers add to a status.
abbrev pub Adds : String → Status → List RunningWorker → Status → Type 0
Adds master out ws after =
    (after.workers ≡ out.workers ++ map (row_of master) ws)
    × (after.total_files ≡ (out.total_files + sum (map (λ w. w.last_stat.total_files) ws)) % 2 ^ 64)
    × (after.total_bytes ≡ (out.total_bytes + sum (map (λ w. w.last_stat.total_bytes) ws)) % 2 ^ 64)
    × (after.failed_files
        ≡ (out.failed_files + sum (map (λ w. w.last_stat.failed_files) ws)) % 2 ^ 64)
    × (after.dispatch_skips
        ≡ (out.dispatch_skips + sum (map (λ w. w.last_stat.dispatch_skips) ws)) % 2 ^ 64)

small_sum : (a : ℕ) → a < 2 ^ 64 → a ≡ (a + 0) % 2 ^ 64
small_sum a small = omega arith

add64_sum : (a b s : ℕ) → (add64 a b + s) % 2 ^ 64 ≡ (a + (b + s)) % 2 ^ 64
add64_sum a b s = omega arith

add64_lt : (a b : ℕ) → add64 a b < 2 ^ 64
add64_lt a b = omega arith

merge_rows-Adds :
    (master : String) (out : Status) (ws : List RunningWorker)
    → IsSmall out
    → Adds master out ws (merge_rows master out ws)
unfolding merge_rows row_of
merge_rows-Adds master out [] (files, bytes, failed, skips) = (
  rw (append_nil out.workers) refl,
  small_sum out.total_files files,
  small_sum out.total_bytes bytes,
  small_sum out.failed_files failed,
  small_sum out.dispatch_skips skips,
)
merge_rows-Adds master out (w ∷ ws) small =
    let next : Status = record out {
      total_files = add64 out.total_files w.last_stat.total_files;
      total_bytes = add64 out.total_bytes w.last_stat.total_bytes;
      failed_files = add64 out.failed_files w.last_stat.failed_files;
      dispatch_skips = add64 out.dispatch_skips w.last_stat.dispatch_skips;
      workers = out.workers ++ row_of master w ∷ [];
    } in
    let (rows, files, bytes, failed, skips) = merge_rows-Adds master next ws (
      add64_lt out.total_files w.last_stat.total_files,
      add64_lt out.total_bytes w.last_stat.total_bytes,
      add64_lt out.failed_files w.last_stat.failed_files,
      add64_lt out.dispatch_skips w.last_stat.dispatch_skips,
    ) in
    (
      rows ∙ snoc-append out.workers (map (row_of master) ws) (row_of master w),
      files
          ∙ add64_sum out.total_files w.last_stat.total_files
              (sum (map (λ v. v.last_stat.total_files) ws)),
      bytes
          ∙ add64_sum out.total_bytes w.last_stat.total_bytes
              (sum (map (λ v. v.last_stat.total_bytes) ws)),
      failed
          ∙ add64_sum out.failed_files w.last_stat.failed_files
              (sum (map (λ v. v.last_stat.failed_files) ws)),
      skips
          ∙ add64_sum out.dispatch_skips w.last_stat.dispatch_skips
              (sum (map (λ v. v.last_stat.dispatch_skips) ws)),
    )

-- A merged status has one row for each worker, in order, and its totals are the sums over the workers of
-- what they last said, whether they answered this time or not, as 64-bit numbers.
pub merge_worker_statuses_lem :
    (active : Bool) (started : ℕ) (master : String) (ws : List RunningWorker)
    → let s = merge_worker_statuses active started master ws in
      (s.workers ≡ map (row_of master) ws)
      × (s.total_files ≡ sum (map (λ w. w.last_stat.total_files) ws) % 2 ^ 64)
      × (s.total_bytes ≡ sum (map (λ w. w.last_stat.total_bytes) ws) % 2 ^ 64)
      × (s.failed_files ≡ sum (map (λ w. w.last_stat.failed_files) ws) % 2 ^ 64)
      × (s.dispatch_skips ≡ sum (map (λ w. w.last_stat.dispatch_skips) ws) % 2 ^ 64)
unfolding merge_worker_statuses
merge_worker_statuses_lem active started master ws =
    let (rows, files, bytes, failed, skips) =
      merge_rows-Adds master
        (record {
          active = active;
          started_at = started;
          master_version = master;
          total_files = 0;
          total_bytes = 0;
          failed_files = 0;
          dispatch_skips = 0;
          workers = [];
        })
        ws (omega arith, omega arith, omega arith, omega arith) in
    (
      rows,
      rw (zero-add (sum (map (λ w. w.last_stat.total_files) ws))) at files,
      rw (zero-add (sum (map (λ w. w.last_stat.total_bytes) ws))) at bytes,
      rw (zero-add (sum (map (λ w. w.last_stat.failed_files) ws))) at failed,
      rw (zero-add (sum (map (λ w. w.last_stat.dispatch_skips) ws))) at skips,
    )
