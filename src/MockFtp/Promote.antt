-- ===== src/MockFtp/Promote.antt =====
-- mockftp/server.go: promoteAll, which gives track ids to the uploads that are old enough.
use utilities.Base.{
  ℕ, ◌+◌, ◌-◌, String, not, ◌||◌, Option, none, some, List, [], ◌∷◌, Dict, lookup, insert, delete,
  eqb, ltb, if◌then◌else◌, str_append, string_keyed, ◌==◌,
}
use utilities.MockFtp.Files.{MockFs, FileState, cut_slash, has_char, file_key}

-- One file that `promoteAll` has found ready.
pub record Pending : Type 0 where
  pub old_key : String
  pub user : String
  pub base : String

-- The key, cut in three: a file of an inbox without a track id that is complete and old enough.
unfoldable pub pending_of : ℕ → ℕ → String → FileState → Option Pending
unfolding cut_slash has_char
pending_of now delay key st = if eqb st.completed_at 0 then none else elim (cut_slash key) [
  | none ↦ none
  | some (user, rest) ↦ elim (cut_slash rest) [
    | none ↦ none
    | some (folder, base) ↦
        if not (folder == "inbox") || has_char 35 base || ltb (now - st.completed_at) delay
        then none
        else some (record { old_key = key; user = user; base = base })
  ]
]

unfoldable pub ready_files : ℕ → ℕ → Dict String FileState → List Pending
unfolding pending_of
ready_files now delay [] = []
ready_files now delay ((key, st) ∷ files) =
    let rest = ready_files now delay files in
    elim (pending_of now delay key st) [ none ↦ rest | some p ↦ p ∷ rest ]

abbrev pub route_of : MockFs → String → String
route_of fs user =
    let dst : String = elim (lookup user fs.routes) [ none ↦ "" | some d ↦ d ] in
    if dst == "" then user else dst

-- The file moves within the inbox, with copies in the outbox that the user's uploads go to and
-- among the sent files.
unfoldable pub promoted : ℕ → String → Pending → FileState → MockFs → MockFs
unfolding lookup insert delete
promoted now id p st fs =
    let name = str_append p.base (str_append "#" id) in
    let copy : FileState = record {
      size = st.size;
      completed_at = now;
      track_id = id;
      content = st.content;
    } in
    let moved : Dict String FileState =
      delete p.old_key
        (insert (file_key p.user "inbox" name) (record st { track_id = id }) fs.files) in
    let sent = insert (file_key (route_of fs p.user) "outbox" name) copy moved in
    record fs { files = insert (file_key p.user "sent" name) copy sent }

-- The body of the second loop of `promoteAll`; a file that is gone would be a nil pointer.
unfoldable pub promote_one : ℕ → String → Pending → MockFs → Option MockFs
unfolding lookup promoted
promote_one now id p fs = elim (lookup p.old_key fs.files) [
  | none ↦ none
  | some st ↦ some (promoted now id p st fs)
]

-- The loop, with the ids that `randHex` gives.
unfoldable pub promote_ready : ℕ → (ℕ → String) → ℕ → List Pending → MockFs → Option MockFs
unfolding promote_one
promote_ready now ids i [] fs = some fs
promote_ready now ids i (p ∷ ps) fs = elim (promote_one now (ids i) p fs) [
  | none ↦ none
  | some next ↦ promote_ready now ids (i + 1) ps next
]

unfoldable pub promote_all : ℕ → (ℕ → String) → MockFs → Option MockFs
unfolding ready_files promote_ready
promote_all now ids fs = promote_ready now ids 0 (ready_files now fs.delay fs.files) fs
