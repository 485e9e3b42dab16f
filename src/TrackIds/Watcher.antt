-- ===== src/TrackIds/Watcher.antt =====
-- watcher.go: `Register` and `tick`. The connections, `path.Base` and the listings are parameters.
use text.Mathlib.Text.{find?}
use Prim.Native.String.{len, slice}
use utilities.Base.{
  ℕ, ◌+◌, String, Bool, true, false, Option, none, some, List, [], ◌∷◌, ◌++◌, Dict, lookup, insert,
  delete, string_keyed, str_append, length, ltb, if◌then◌else◌,
}

pub record Entry : Type 0 where
  pub user : String
  pub basename : String
  pub uploaded : ℕ
  pub deadline : ℕ

pub record Result : Type 0 where
  pub user : String
  pub basename : String
  pub track_id : String
  pub detected_at : ℕ
  pub timed_out : Bool

-- `results` is what stands in the channel.
pub record Watcher (Conn : Type 0) : Type 0 where
  pub timeout : ℕ
  pub pending : Dict String Entry
  pub results : List Result
  pub clients : Dict String Conn

pub record Server (Conn : Type 0) : Type 0 where
  pub opener : String → Option Conn
  pub names_in_folder : Conn → Option (List String)
  pub base : String → String

abbrev pub key_of : String → String → String
key_of user basename = str_append user (str_append "|" basename)

abbrev pub entry_key : Entry → String
entry_key e = key_of e.user e.basename

unfoldable pub register :
    {Conn : Type 0} → String → String → (now : ℕ) → Watcher Conn → Watcher Conn
register user basename now w = record w {
  pending =
      insert (key_of user basename)
        (record { user = user; basename = basename; uploaded = now; deadline = now + w.timeout })
        w.pending;
}

-- A `select` with a `default`: a full channel drops the result. It holds 512.
unfoldable pub send : Result → List Result → List Result
send r results = if ltb (length results) 512 then results ++ r ∷ [] else results

abbrev pub timeout_of : ℕ → Entry → Result
timeout_of now e = record {
  user = e.user;
  basename = e.basename;
  track_id = "";
  detected_at = now;
  timed_out = true;
}

abbrev pub found_of : ℕ → String → Entry → Result
found_of now tid e = record {
  user = e.user;
  basename = e.basename;
  track_id = tid;
  detected_at = now;
  timed_out = false;
}

-- `byUser[e.user] = append(byUser[e.user], e)`
abbrev pub add_entry : Entry → Dict String (List Entry) → Dict String (List Entry)
add_entry e by_user =
    let old : List Entry = elim (lookup e.user by_user) [ none ↦ [] | some es ↦ es ] in
    insert e.user (old ++ e ∷ []) by_user

abbrev pub Found : Type 0
Found = Dict String Entry × List Result

-- The first half of `tick`, over the entries that the map has when it starts.
unfoldable pub expire :
    (now : ℕ)
    → Dict String Entry
    → Found
    → Dict String (List Entry)
    → Found × Dict String (List Entry)
unfolding send
expire now [] found by_user = (found, by_user)
expire now ((k, e) ∷ entries) (pending, results) by_user =
    if ltb e.deadline now
    then expire now entries (delete k pending, send (timeout_of now e) results) by_user
    else expire now entries (pending, results) (add_entry e by_user)

-- Of a name `<basename>#<id>`, the basename and the id.
abbrev pub split_name : String → Option (String × String)
split_name name = elim (find? name "#") [
  | none ↦ none
  | some i ↦ if ltb 0 i then some (slice name 0 i, slice name (i + 1) (len name)) else none
]

unfoldable pub prefix_map :
    (base : String → String) → List String → Dict String String → Dict String String
prefix_map base [] m = m
prefix_map base (n ∷ names) m = elim (split_name (base n)) [
  | none ↦ prefix_map base names m
  | some (before, tid) ↦ prefix_map base names (insert before tid m)
]

-- The entries of a user against the listing.
unfoldable pub detect : (now : ℕ) → Dict String String → List Entry → Found → Found
unfolding send
detect now ids [] found = found
detect now ids (e ∷ es) (pending, results) = elim (lookup e.basename ids) [
  | none ↦ detect now ids es (pending, results)
  | some tid ↦ detect now ids es (delete (entry_key e) pending, send (found_of now tid e) results)
]

module _ {Conn : Type 0} (server : Server Conn) where
  -- The client of a user, opened when there is none.
  abbrev pub client_of : Dict String Conn → String → Option Conn
  client_of clients user = elim (lookup user clients) [
    | none ↦ server.opener user
    | some c ↦ some c
  ]

  -- The second half of `tick`, for the users; it finds ids at `now`.
  unfoldable pub look :
      (now : ℕ) → Dict String (List Entry) → Dict String Conn → Found → Dict String Conn × Found
  unfolding prefix_map detect
  look now [] clients found = (clients, found)
  look now ((user, es) ∷ users) clients found = elim (client_of clients user) [
    | none ↦ look now users clients found
    | some c ↦ elim (server.names_in_folder c) [
      | none ↦ look now users (delete user clients) found
      | some names ↦
          look now users (insert user c clients)
            (detect now (prefix_map server.base names []) es found)
    ]
  ]

  -- `later` is the time when the ids are found.
  unfoldable pub tick : (now later : ℕ) → Watcher Conn → Watcher Conn
  unfolding expire look
  tick now later w =
      let (found, by_user) = expire now w.pending (w.pending, w.results) [] in
      let (clients, (pending, results)) = look later by_user w.clients found in
      record w { pending = pending; results = results; clients = clients }
