-- ===== src/MockFtp/Transfer.antt =====
-- mockftp/server.go: a file that is stored, and read again.
use utilities.Base.{
  ℕ, String, Bool, true, false, not, Bool-cases, none, some, inl, inr, List, [], ◌∷◌, length,
  replicate, Dict, lookup, insert, lookup-insert, same_refl, if◌then◌else◌, if_of_false,
  string_keyed, ◌==◌, ◌≡◌, refl, ap, ◌∙◌,
}
use utilities.MockFtp.Files.{
  Texts, MockFs, FileState, split_path, file_key, or_inbox, or_outbox, fresh_file, body_of,
  store_begin, store_end, store, read_file,
}
use utilities.MockFtp.Commands.{stor, retr, pasv}
use utilities.MockFtp.Control.{
  do_stor, do_retr, Outcome, Server, Io, State, code, body, handle, fails_for,
}

-- What a later download of an upload gives: its bytes, or as many zeros.
abbrev pub replay : MockFs → List ℕ → List ℕ
replay fs bytes = if fs.persist then bytes else replicate (length bytes) 0

read_file-found :
    (t : Texts) (name p : String) (fs : MockFs) (st : FileState)
    → lookup (file_key name (or_outbox (split_path t p).0) (split_path t p).1) fs.files ≡ some st
    → (read_file t name p fs).1 ≡ some (body_of fs st)
unfolding read_file
read_file-found t name p fs st h = rw (read_file, h) refl

module _ (t : Texts) (name p : String) (bytes : List ℕ) (now : ℕ) (fs : MockFs) where
  abbrev stored_file : FileState
  stored_file = record {
    size = length bytes;
    completed_at = now;
    track_id = "";
    content = if fs.persist then some bytes else none;
  }

  store_lem :
      let key = file_key name (or_inbox (split_path t p).0) (split_path t p).1 in
      store t name p bytes now fs
      ≡ record fs { files = insert key stored_file (insert key fresh_file fs.files) }
  unfolding store store_begin store_end
  store_lem =
      let key = file_key name (or_inbox (split_path t p).0) (split_path t p).1 in
      let begun : lookup key (insert key fresh_file fs.files) ≡ some fresh_file =
        lookup-insert key key fresh_file fs.files ∙ rw (same_refl key) refl in
      rw (store, store_end, begun) refl

  -- A path with a folder is found again under the key that its upload had.
  read_file-store :
      ((split_path t p).0 == "") ≡ false
      → (read_file t name p (store t name p bytes now fs)).1 ≡ some (replay fs bytes)
  unfolding read_file
  read_file-store placed =
      let key = file_key name (or_inbox (split_path t p).0) (split_path t p).1 in
      let stored : Dict String FileState =
        insert key stored_file (insert key fresh_file fs.files) in
      let kept : MockFs = record fs { files = stored } in
      let found : lookup key stored ≡ some stored_file =
        lookup-insert key key stored_file (insert key fresh_file fs.files)
        ∙ rw (same_refl key) refl in
      let same : file_key name (or_outbox (split_path t p).0) (split_path t p).1 ≡ key =
        rw placed refl in
      ap (λ f. (read_file t name p f).1) store_lem
      ∙ read_file-found t name p kept stored_file (ap (λ k. lookup k stored) same ∙ found)
      ∙ ap some (elim (Bool-cases fs.persist) [
        | inl persists ↦ rw persists refl
        | inr synthesises ↦ rw synthesises refl
      ])

-- What the session of an upload does next: PASV and RETR, on the server that it has left.
module _ (srv : Server) (t : Texts) (s : State) (io1 io2 io3 : Io) (p : String) where
  abbrev pub after_stor : State
  after_stor = (handle srv t io1 stor p s).0

  abbrev pub after_pasv : State
  after_pasv = (handle srv t io2 pasv "" after_stor).0

  abbrev stored_state : Bool → State
  stored_state listens = record {
    fs = store t s.session.user_name p io1.bytes io1.now s.fs;
    session = record s.session { listening = listens };
  }

  after_stor_lem :
      s.session.authed ≡ true
      → s.session.listening ≡ true
      → fails_for s.fs s.session.user_name ≡ false
      → io1.accepts ≡ true
      → after_stor ≡ stored_state false
  unfolding handle do_stor
  after_stor_lem authed listens allowed accepts =
      ap (λ (o : Outcome). o.0)
        (if_of_false (not s.session.authed) _ _ (ap not authed)
          ∙ if_of_false (not s.session.listening) _ _ (ap not listens)
          ∙ if_of_false (fails_for s.fs s.session.user_name) _ _ allowed
          ∙ if_of_false (not io1.accepts) _ _ (ap not accepts))

  after_pasv_lem :
      (r : State) (n : ℕ)
      → io2.port ≡ some n
      → (handle srv t io2 pasv "" r).0
        ≡ record r { session = record r.session { listening = true } }
  unfolding handle
  after_pasv_lem r n h = rw (handle, h) refl

  retr_lem :
      (r : State) (bytes : List ℕ)
      → r.session.authed ≡ true
      → r.session.listening ≡ true
      → (read_file t r.session.user_name p r.fs).1 ≡ some bytes
      → io3.accepts ≡ true
      → io3.sent ≡ true
      → (handle srv t io3 retr p r).1 ≡ code 150 ∷ body bytes ∷ code 226 ∷ []
  unfolding handle do_retr
  retr_lem r bytes authed listens found accepts sent =
      ap (λ (o : Outcome). o.1)
        (if_of_false (not r.session.authed) _ _ (ap not authed)
          ∙ if_of_false (not r.session.listening) _ _ (ap not listens))
      ∙ rw (do_retr, found, accepts, sent) refl

  -- A session that is logged in and has a data connection stores a file under a path with a
  -- folder, opens a data connection again and asks for the path. If nothing fails on the network,
  -- the server sends the bytes of the upload, or as many zeros when it does not keep contents.
  pub retr-stor :
      (n : ℕ)
      → s.session.authed ≡ true
      → s.session.listening ≡ true
      → fails_for s.fs s.session.user_name ≡ false
      → ((split_path t p).0 == "") ≡ false
      → io1.accepts ≡ true
      → io2.port ≡ some n
      → io3.accepts ≡ true
      → io3.sent ≡ true
      → (handle srv t io3 retr p after_pasv).1
        ≡ code 150 ∷ body (replay s.fs io1.bytes) ∷ code 226 ∷ []
  retr-stor n authed listens allowed placed accepts1 port accepts3 sent =
      let stored = after_stor_lem authed listens allowed accepts1 in
      let opened : after_pasv ≡ stored_state true =
        after_pasv_lem after_stor n port
        ∙ ap {A = State} {B = State}
            (λ r. record r { session = record r.session { listening = true } }) stored in
      ap (λ r. (handle srv t io3 retr p r).1) opened
      ∙ retr_lem (stored_state true) (replay s.fs io1.bytes) authed refl
          (read_file-store t s.session.user_name p io1.bytes io1.now s.fs placed) accepts3 sent
