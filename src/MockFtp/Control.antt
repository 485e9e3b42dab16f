-- ===== src/MockFtp/Control.antt =====
-- mockftp/server.go: handle, the commands of one control connection.
use utilities.Base.{
  ℕ, ◌/◌, ◌%◌, String, Bool, true, false, not, ◌&&◌, ◌||◌, Option, none, some, List, [], ◌∷◌,
  lookup, if◌then◌else◌, string_keyed, ◌==◌,
}
use utilities.MockFtp.Commands.{
  Command, user, pass, auth, pbsz, prot, feat, opts, syst, type, pwd, cwd, noop, quit, pasv, epsv,
  stor, retr, list, dele, rnfr, rnto, size, unknown, command_of, split_cmd,
}
use utilities.MockFtp.Promote.{promote_all}
use utilities.MockFtp.Files.{
  Texts, MockFs, store, read_file, delete_file, rename_file, size_of, list_for_user,
}

-- A session, with `dataListener` as whether there is one.
pub record Session : Type 0 where
  pub user_name : String
  pub authed : Bool
  pub rnfr_path : String
  pub protect_control : Bool
  pub protect_data : Bool
  pub listening : Bool

-- What does not change in a connection.
pub record Server : Type 0 where
  pub has_tls : Bool
  pub allow_explicit : Bool

-- What the network and the clock give to one command.
pub record Io : Type 0 where
  pub handshake : Bool
  -- the port of `net.Listen`
  pub port : Option ℕ
  pub accepts : Bool
  -- the bytes of an upload, and whether they came without an error
  pub bytes : List ℕ
  pub copied : Bool
  pub sent : Bool
  pub now : ℕ
  pub ids : ℕ → String

-- An answer by its code, with the numbers that it carries, or what a data connection is given.
pub data Reply : Type 0 where
  code : ℕ → Reply
  passive : ℕ → ℕ → Reply
  extended : ℕ → Reply
  file_size : ℕ → Reply
  body : List ℕ → Reply
  listing : List (String × ℕ × ℕ) → Reply

pub record State : Type 0 where
  pub fs : MockFs
  pub session : Session

-- After a command: the state, the answers, and whether the connection goes on.
abbrev pub Outcome : Type 0
Outcome = State × List Reply × Bool

abbrev pub answer : State → ℕ → Outcome
answer s n = (s, code n ∷ [], true)

abbrev pub with_session : State → Session → State
with_session s t = record s { session = t }

-- `openPassive`
abbrev pub open_passive : Io → State → Option (State × ℕ)
open_passive io s = elim io.port [
  | none ↦ none
  | some n ↦ some (with_session s (record s.session { listening = true }), n)
]

abbrev pub close_data : State → State
close_data s = with_session s (record s.session { listening = false })

-- The guards that STOR, RETR and LIST share.
abbrev pub when_ready : State → Outcome → Outcome
when_ready s next =
    if not s.session.authed
    then answer s 530
    else if not s.session.listening
    then answer s 425
    else next

abbrev pub fails_for : MockFs → String → Bool
fails_for fs name = elim (lookup name fs.fail_users) [ none ↦ false | some b ↦ b ]

abbrev pub map_fs : State → MockFs → State
map_fs s fs = record s { fs = fs }

-- `acceptStor`: the file is there from the first byte, and complete even when the copy fails
unfoldable pub do_stor : Texts → Io → String → State → Outcome
unfolding store
do_stor t io arg s =
    let closed = close_data s in
    if fails_for s.fs s.session.user_name
    then answer closed 550
    else if not io.accepts
    then (closed, code 150 ∷ code 550 ∷ [], true)
    else (
      map_fs closed (store t s.session.user_name arg io.bytes io.now s.fs),
      code 150 ∷ code (if io.copied then 226 else 550) ∷ [],
      true,
    )

-- The end of a transfer from the server.
abbrev pub transfer : Io → State → Reply → Outcome
transfer io s payload =
    if not io.accepts
    then (close_data s, code 150 ∷ code 426 ∷ [], true)
    else (close_data s, code 150 ∷ payload ∷ code (if io.sent then 226 else 426) ∷ [], true)

unfoldable pub do_retr : Texts → Io → String → State → Outcome
unfolding read_file
do_retr t io arg s =
    let (fs, found) = read_file t s.session.user_name arg s.fs in
    elim found [
      | none ↦ answer (close_data (map_fs s fs)) 550
      | some bytes ↦ transfer io (map_fs s fs) (body bytes)
    ]

-- A nil file of `promoteAll` ends the connection.
unfoldable pub do_list : Texts → Io → String → State → Outcome
unfolding promote_all list_for_user
do_list t io arg s = elim (promote_all io.now io.ids s.fs) [
  | none ↦ (s, [], false)
  | some fs ↦ transfer io (map_fs s fs) (listing (list_for_user t s.session.user_name arg fs))
]

abbrev pub done : State → ℕ → ℕ → MockFs × Bool → Outcome
done s good bad (fs, ok) = answer (map_fs s fs) (if ok then good else bad)

abbrev pub passive_of : State → (ℕ → Reply) → Option (State × ℕ) → Outcome
passive_of s reply none = answer s 425
passive_of s reply (some (t, n)) = (t, reply n ∷ [], true)

-- The body of the loop of `handle`.
unfoldable pub handle : Server → Texts → Io → Command → String → State → Outcome
unfolding do_stor do_retr do_list delete_file rename_file size_of
handle srv t io user arg s = answer (with_session s (record s.session { user_name = arg })) 331
handle srv t io pass arg s =
    if s.session.user_name == ""
    then answer s 530
    else answer (with_session s (record s.session { authed = true })) 230
handle srv t io auth arg s =
    if not srv.allow_explicit || not srv.has_tls
    then answer s 502
    else if not (t.to_upper arg == "TLS") && not (t.to_upper arg == "TLS-C")
    then answer s 504
    else if not io.handshake
    then (s, code 234 ∷ [], false)
    else answer (with_session s (record s.session { protect_control = true })) 234
handle srv t io pbsz arg s = answer s 200
handle srv t io prot arg s =
    answer (with_session s (record s.session { protect_data = t.to_upper arg == "P" })) 200
handle srv t io feat arg s = answer s 211
handle srv t io opts arg s = answer s 200
handle srv t io syst arg s = answer s 215
handle srv t io type arg s = answer s 200
handle srv t io pwd arg s = answer s 257
handle srv t io cwd arg s = answer s 250
handle srv t io noop arg s = answer s 200
handle srv t io quit arg s = (s, code 221 ∷ [], false)
handle srv t io pasv arg s =
    passive_of (close_data s) (λ n. passive (n / 256) (n % 256)) (open_passive io s)
handle srv t io epsv arg s = passive_of (close_data s) extended (open_passive io s)
handle srv t io stor arg s = when_ready s (do_stor t io arg s)
handle srv t io retr arg s = when_ready s (do_retr t io arg s)
handle srv t io list arg s = when_ready s (do_list t io arg s)
handle srv t io dele arg s = done s 250 550 (delete_file t s.session.user_name arg s.fs)
handle srv t io rnfr arg s = answer (with_session s (record s.session { rnfr_path = arg })) 350
handle srv t io rnto arg s =
    if s.session.rnfr_path == ""
    then answer s 503
    else done (with_session s (record s.session { rnfr_path = "" })) 250 550
        (rename_file t s.session.user_name s.session.rnfr_path arg s.fs)
handle srv t io size arg s = elim (size_of t s.session.user_name arg s.fs) [
  | none ↦ answer s 550
  | some n ↦ (s, file_size n ∷ [], true)
]
handle srv t io unknown arg s = answer s 502

-- The lines of a connection, each with what the network gives to it.
unfoldable pub serve : Server → Texts → List (String × Io) → State → State
unfolding command_of split_cmd handle
serve srv t [] s = s
serve srv t ((line, io) ∷ lines) s =
    let (cmd, arg) = split_cmd t line in
    let (next, replies, goes_on) = handle srv t io (command_of cmd) arg s in
    let rest = serve srv t lines next in if goes_on then rest else next
