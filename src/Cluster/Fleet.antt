-- ===== src/Cluster/Fleet.antt =====
-- cluster.go: the requests to the workers. What a worker answers, and the JSON of it, are parameters: a
-- worker may answer by all the requests that were sent before.
use utilities.Base.{
  ℕ, ◌/◌, ◌⊎◌, inl, inr, String, Bool, Option, none, some, List, [], ◌∷◌, ◌++◌, ◌==◌, string_keyed,
  eqb, if◌then◌else◌,
}

pub record Worker : Type 0 where
  pub url : String
  pub auth_user : String
  pub auth_pass : String

pub data Call : Type 0 where
  post_start : Worker → String → Call
  get_health : Worker → Call
  get_status : Worker → Call
  post_stop : Worker → Call

-- The error of `do`, or a status code and a body.
pub data Reply : Type 0 where
  lost : String → Reply
  replied : ℕ → String → Reply

-- The body of a refused start stands as it came; the source trims it for its message.
pub data CallError : Type 0 where
  unreachable : String → CallError
  http_error : ℕ → String → CallError
  undecodable : CallError
  no_run_id : CallError

-- What a worker says of its run. The rates, which the source keeps as floats, are left out.
pub record Counters : Type 0 where
  pub active : Bool
  pub total_files : ℕ
  pub total_bytes : ℕ
  pub failed_files : ℕ
  pub dispatch_skips : ℕ

-- The workers' answers, and what is read off the bodies.
pub record Network : Type 0 where
  pub respond : List Call → Call → Reply
  pub run_id_of : String → Option String
  pub version_of : String → Option String
  pub status_of : String → Option Counters

abbrev pub Sent : Type 0 → Type 0
Sent A = (CallError ⊎ A) × List Call

abbrev pub is_ok : ℕ → Bool
is_ok code = eqb (code / 100) 2

module _ (net : Network) where
  unfoldable pub run_id_reply : Reply → CallError ⊎ String
  run_id_reply (Reply.lost e) = inl (CallError.unreachable e)
  run_id_reply (Reply.replied code body) =
      if is_ok code
      then elim (net.run_id_of body) [
        | none ↦ inl CallError.undecodable
        | some run_id ↦ if run_id == "" then inl CallError.no_run_id else inr run_id
      ]
      else inl (CallError.http_error code body)

  unfoldable pub start_one : Worker → String → List Call → Sent String
  unfolding run_id_reply
  start_one w body log =
      (run_id_reply (net.respond log (Call.post_start w body)), log ++ Call.post_start w body ∷ [])

  unfoldable pub version_reply : Reply → CallError ⊎ String
  version_reply (Reply.lost e) = inl (CallError.unreachable e)
  version_reply (Reply.replied code body) =
      if is_ok code
      then elim (net.version_of body) [ none ↦ inl CallError.undecodable | some v ↦ inr v ]
      else inl (CallError.http_error code "")

  unfoldable pub negotiate_one : Worker → List Call → Sent String
  unfolding version_reply
  negotiate_one w log =
      (version_reply (net.respond log (Call.get_health w)), log ++ Call.get_health w ∷ [])

  unfoldable pub status_reply : Reply → CallError ⊎ Counters
  status_reply (Reply.lost e) = inl (CallError.unreachable e)
  status_reply (Reply.replied code body) =
      if is_ok code
      then elim (net.status_of body) [ none ↦ inl CallError.undecodable | some s ↦ inr s ]
      else inl (CallError.http_error code "")

  unfoldable pub status_one : Worker → List Call → Sent Counters
  unfolding status_reply
  status_one w log =
      (status_reply (net.respond log (Call.get_status w)), log ++ Call.get_status w ∷ [])

  -- The error, if there is one.
  unfoldable pub stop_reply : Reply → Option CallError
  stop_reply (Reply.lost e) = some (CallError.unreachable e)
  stop_reply (Reply.replied code body) =
      if is_ok code then none else some (CallError.http_error code "")

  unfoldable pub stop_one : Worker → List Call → Option CallError × List Call
  unfolding stop_reply
  stop_one w log = (stop_reply (net.respond log (Call.post_stop w)), log ++ Call.post_stop w ∷ [])
