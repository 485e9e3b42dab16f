-- ===== src/Threads/Dump.antt =====
-- parser/parser.go: a thread and its locks. Of a thread, the fields that the analysis reads.
use utilities.Base.{
  String, Bool, ◌||◌, List, [], ◌∷◌, ◌==◌, string_keyed, str_append, if◌then◌else◌,
}

pub record LockRef : Type 0 where
  pub id : String
  pub class : String
  pub op : String

pub record Frame : Type 0 where
  pub class : String
  pub method : String
  pub source : String
  pub native : Bool
  pub compiled : Bool

pub record Thread : Type 0 where
  pub name : String
  pub tid : String
  pub state : String
  pub frames : List Frame
  pub locks : List LockRef

-- `Frame.Sig`
abbrev pub frame_sig : Frame → String
frame_sig f = str_append f.class (str_append "." (str_append f.method (str_append "@" f.source)))

-- The locks of `Holds`.
unfoldable pub holds : List LockRef → List LockRef
holds [] = []
holds (l ∷ ls) = let rest = holds ls in if l.op == "locked" then l ∷ rest else rest

abbrev pub no_lock : LockRef
no_lock = record { id = ""; class = ""; op = "" }

-- The lock of `WaitingOn`, or the empty one.
unfoldable pub waiting_on : List LockRef → LockRef
waiting_on [] = no_lock
waiting_on (l ∷ ls) =
    let rest = waiting_on ls in
    if l.op == "waiting to lock" || (l.op == "parking to wait for" || l.op == "waiting on")
    then l
    else rest
