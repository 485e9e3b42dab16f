-- ===== src/Guards/Requests.antt =====
-- security.go: `BasicAuth` and `CSRFGuard`. A guard lets a request through or answers with a status.
use utilities.Base.{
  ℕ, ◌≡◌, inl, inr, refl, String, Bool, false, not, ◌&&◌, ◌||◌, Option, none, some, ◌==◌,
  string_keyed, if◌then◌else◌, arith, Bool-cases, Option-cases,
}

-- `credentials` are what `r.BasicAuth()` gives, `detail` is the query's, `requested_with` the header.
pub record Request : Type 0 where
  pub method : String
  pub path : String
  pub detail : String
  pub credentials : Option (String × String)
  pub requested_with : String

pub data Verdict : Type 0 where
  passed : Verdict
  refused : ℕ → Verdict

unfoldable pub basic_auth : String → String → Request → Verdict
basic_auth user pass r =
    if r.path == "/healthz" && not (r.detail == "1") then Verdict.passed else elim r.credentials [
      | none ↦ Verdict.refused 401
      | some (u, p) ↦
          if not (u == user) || not (p == pass) then Verdict.refused 401 else Verdict.passed
    ]

unfoldable pub csrf_guard : Request → Verdict
csrf_guard r =
    if r.method == "GET" || (r.method == "HEAD" || r.method == "OPTIONS")
    then Verdict.passed
    else if not (r.requested_with == "sftp-loadtest")
    then Verdict.refused 403
    else Verdict.passed

abbrev is_probe : Request → Bool
is_probe r = r.path == "/healthz" && not (r.detail == "1")

abbrev is_user : String → String → Option (String × String) → Bool
is_user user pass none = false
is_user user pass (some (u, p)) = u == user && p == pass

-- With a user and a password set, the requests that get through are the plain health check and those
-- that carry just these credentials; any other is answered 401.
basic_auth-passed :
    (user pass : String) (r : Request)
    → basic_auth user pass r ≡ (
        if is_probe r || is_user user pass r.credentials
        then Verdict.passed
        else Verdict.refused 401)
unfolding basic_auth
basic_auth-passed user pass r = elim (Bool-cases (is_probe r)) [
  | inl e ↦ rw e refl
  | inr e ↦ elim (Option-cases r.credentials) [
    | inl f ↦ rw (e, f) refl
    | inr ((u, p), f) ↦ rw (e, f) (ground arith)
  ]
]
