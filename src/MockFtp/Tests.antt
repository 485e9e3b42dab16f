-- ===== src/MockFtp/Tests.antt =====
-- The mock FTP server on small inputs. Paths are given clean, and commands in capitals.
use utilities.Base.{
  ◌==◌, ◌≤◌, String, true, false, none, some, List, [], ◌∷◌, lookup, length, map, IsUnique,
  string_keyed, ◌≡◌, ◌≢◌, refl, arith,
}
use utilities.MockFtp.Promote.{promote_all}
use utilities.MockFtp.Files.{Texts, MockFs, FileState, split_path, list_for_user}
use utilities.MockFtp.Commands.{list, stor, retr, pass, command_of, split_cmd}
use utilities.MockFtp.Control.{Server, Io, State, code, body, handle, fails_for, serve}
use utilities.MockFtp.Login.{serve-IsKept}
use utilities.MockFtp.Transfer.{retr-stor, after_pasv}
use utilities.MockFtp.Listing.{list-serve}
use utilities.MockFtp.Promotion.{promote_all-some}

abbrev texts : Texts
texts = record { clean = λ s. s; trim_space = λ s. s; to_upper = λ s. s }

abbrev plain : Server
plain = record { has_tls = false; allow_explicit = false }

abbrev io : Io
io = record {
  handshake = true;
  port = some 2121;
  accepts = true;
  bytes = 7 ∷ 8 ∷ [];
  copied = true;
  sent = true;
  now = 100;
  ids = λ i. "id";
}

abbrev invoice : FileState
invoice = record { size = 3; completed_at = 10; track_id = ""; content = none }

abbrev one_file : MockFs
one_file = record {
  files = ("ann/inbox/a.xml", invoice) ∷ [];
  delay = 2;
  routes = ("ann", "bob") ∷ [];
  fail_users = [];
  persist = true;
  evict_after_read = true;
}

abbrev at_start : State
at_start = record {
  fs = one_file;
  session = record {
    user_name = "";
    authed = false;
    rnfr_path = "";
    protect_control = false;
    protect_data = false;
    listening = false;
  };
}

abbrev logged_in : State
logged_in = record at_start {
  session = record at_start.session { user_name = "ann"; authed = true; listening = true };
}

-- A file is deleted by a connection that has given a user name and no password.
test_delete_without_login :
    (serve plain texts (("USER ann", io) ∷ ("DELE inbox/a.xml", io) ∷ []) at_start).fs.files ≡ []
unfolding serve
test_delete_without_login = refl

test_stor_without_login : (handle plain texts io stor "b.xml" at_start).1 ≡ code 530 ∷ []
unfolding handle
test_stor_without_login = refl

-- The listing of bob's outbox after the promotion of ann's upload.
test_promoted :
    (elim (promote_all 100 (λ i. "id") one_file) as (λ _. List String) [
      | none ↦ []
      | some fs ↦ map (λ e. e.0) (list_for_user texts "bob" "outbox" fs)
    ])
    ≡ "a.xml#id" ∷ []
unfolding promote_all list_for_user
test_promoted = refl

-- An upload whose copy failed is promoted all the same.
test_failed_upload :
    let failed = handle plain texts (record io { copied = false }) stor "inbox/b.xml" logged_in in
    length (list_for_user texts "ann" "inbox" failed.0.fs) ≡ 2
unfolding handle list_for_user
test_failed_upload = refl

user_line : command_of (split_cmd texts "USER ann").0 ≢ pass
unfolding command_of split_cmd
user_line e = cc

dele_line : command_of (split_cmd texts "DELE inbox/a.xml").0 ≢ pass
unfolding command_of split_cmd
dele_line e = cc

serve-IsKept_example :
    ((serve plain texts (("USER ann", io) ∷ ("DELE inbox/a.xml", io) ∷ []) at_start).session.authed
      ≡ false)
    × (length
          (serve plain texts (("USER ann", io) ∷ ("DELE inbox/a.xml", io) ∷ []) at_start).fs.files
        ≤ 1)
serve-IsKept_example =
    serve-IsKept plain texts (("USER ann", io) ∷ ("DELE inbox/a.xml", io) ∷ []) 1 at_start
      (user_line, (dele_line, tt)) refl (omega arith)

has_folder : ((split_path texts "inbox/b.xml").0 == "") ≡ false
unfolding split_path
has_folder = refl

nobody_fails : fails_for one_file "ann" ≡ false
unfolding lookup
nobody_fails = refl

retr-stor_example :
    (handle plain texts io retr "inbox/b.xml"
      (after_pasv plain texts logged_in io io io "inbox/b.xml")).1
    ≡ code 150 ∷ body (7 ∷ 8 ∷ []) ∷ code 226 ∷ []
retr-stor_example =
    retr-stor plain texts logged_in io io io "inbox/b.xml" 2121 refl refl nobody_fails has_folder
      refl refl refl refl

one_file-IsUnique : IsUnique one_file.files
unfolding lookup
one_file-IsUnique = (refl, tt)

test_promotion : (after : MockFs) × (promote_all 100 (λ i. "id") one_file ≡ some after)
test_promotion = promote_all-some 100 (λ i. "id") one_file one_file-IsUnique

list-serve_example :
    (handle plain texts io list "outbox"
      (serve plain texts (("USER ann", io) ∷ ("PASS x", io) ∷ ("PASV", io) ∷ []) at_start)).2
    ≡ true
list-serve_example =
    list-serve plain texts (("USER ann", io) ∷ ("PASS x", io) ∷ ("PASV", io) ∷ []) at_start io
      "outbox" one_file-IsUnique
