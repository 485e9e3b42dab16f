-- ===== src/MockFtp/Login.antt =====
-- mockftp/server.go: what a connection without a login can do to the files.
use utilities.Base.{
  ℕ, ◌+◌, ◌≤◌, String, Bool, false, not, ◌&&◌, ◌||◌, Bool-cases, none, Option-cases, inl, inr, List,
  [], ◌∷◌, All, Dict, lookup, delete, has, length, length-delete-le, length-insert-le, string_keyed,
  ◌==◌, ◌≡◌, ◌≢◌, refl, sym, ap, subst, if_of_true, if_elim, arith,
}
use utilities.MockFtp.Files.{
  Texts, MockFs, FileState, split_path, file_key, delete_file, rename_file, size_of,
}
use utilities.MockFtp.Commands.{
  Command, user, pass, auth, pbsz, prot, feat, opts, syst, type, pwd, cwd, noop, quit, pasv, epsv,
  stor, retr, list, dele, rnfr, rnto, size, unknown, command_of, split_cmd,
}
use utilities.MockFtp.Control.{
  Server, Io, State, Outcome, done, with_session, answer, when_ready, passive_of, open_passive,
  close_data, extended, handle, serve, Reply,
}

length-delete_of_has :
    (k : String) (m : Dict String FileState)
    → lookup k m ≢ none
    → length (delete k m) + 1 ≤ length m
unfolding lookup delete
length-delete_of_has k [] h = absurd (h refl)
length-delete_of_has k ((j, w) ∷ m) h = elim (Bool-cases (j == k)) [
  | inl same ↦ rw same (omega (arith, length-delete-le k m))
  | inr other ↦
      let rest = length-delete_of_has k m (rw (lookup, other) at h) in rw other (omega arith)
]

-- Not logged in, and with no more files than there were.
abbrev pub IsKept : ℕ → State → Type 0
IsKept n s = (s.session.authed ≡ false) × (length s.fs.files ≤ n)

module _ (t : Texts) (name : String) (fs : MockFs) where
  length-delete_file : (p : String) → length (delete_file t name p fs).0.files ≤ length fs.files
  unfolding delete_file
  length-delete_file p =
      elim (Bool-cases (has (file_key name (split_path t p).0 (split_path t p).1) fs.files)) [
        | inl found ↦ rw (delete_file, found) (length-delete-le _ fs.files)
        | inr missing ↦ rw (delete_file, missing) (omega arith)
      ]

  length-rename_file :
      (from to : String) → length (rename_file t name from to fs).0.files ≤ length fs.files
  unfolding rename_file
  length-rename_file from to =
      let src = file_key name (split_path t from).0 (split_path t from).1 in
      let dst = file_key name (split_path t to).0 (split_path t to).1 in
      elim (Option-cases (lookup src fs.files)) [
        | inl missing ↦ rw (rename_file, missing) (omega arith)
        | inr (st, found) ↦
            let there : lookup src fs.files ≢ none = λ e. cc in
            rw (rename_file, found)
              (omega (
                arith,
                length-delete_of_has src fs.files there,
                length-insert-le dst st (delete src fs.files),
              ))
      ]

done-IsKept :
    (n : ℕ) (s : State) (good bad : ℕ) (r : MockFs × Bool)
    → s.session.authed ≡ false
    → length r.0.files ≤ n
    → IsKept n (done s good bad r).0
done-IsKept n s good bad (fs, ok) out few = (out, few)

passive_of-IsKept :
    (n : ℕ) (s : State) (io : Io) (reply : ℕ → Reply)
    → IsKept n s
    → IsKept n (passive_of (close_data s) reply (open_passive io s)).0
passive_of-IsKept n s io reply kept = elim (Option-cases io.port) [
  | inl failed ↦ rw failed kept
  | inr (port, opened) ↦ rw opened kept
]

when_ready-IsKept :
    (n : ℕ) (s : State) (next : Outcome) → IsKept n s → IsKept n (when_ready s next).0
when_ready-IsKept n s next (out, few) =
    subst (λ o. IsKept n o.0)
      (sym (if_of_true (not s.session.authed) (answer s 530) _ (ap not out))) (out, few)

-- One command that is not PASS.
handle-IsKept :
    (srv : Server) (t : Texts) (io : Io) (cmd : Command) (arg : String) (n : ℕ) (s : State)
    → cmd ≢ pass
    → IsKept n s
    → IsKept n (handle srv t io cmd arg s).0
unfolding handle
handle-IsKept srv t io user arg n s ne kept = kept
handle-IsKept srv t io pass arg n s ne kept = absurd (ne refl)
handle-IsKept srv t io auth arg n s ne kept =
    elim (Bool-cases (not srv.allow_explicit || not srv.has_tls)) [
      | inl off ↦ rw (handle, off) kept
      | inr on ↦
          elim (Bool-cases (not (t.to_upper arg == "TLS") && not (t.to_upper arg == "TLS-C"))) [
            | inl other ↦ rw (handle, on, other) kept
            | inr tls ↦ elim (Bool-cases io.handshake) [
              | inl works ↦ rw (handle, on, tls, works) kept
              | inr fails ↦ rw (handle, on, tls, fails) kept
            ]
          ]
    ]
handle-IsKept srv t io pbsz arg n s ne kept = kept
handle-IsKept srv t io prot arg n s ne kept = kept
handle-IsKept srv t io feat arg n s ne kept = kept
handle-IsKept srv t io opts arg n s ne kept = kept
handle-IsKept srv t io syst arg n s ne kept = kept
handle-IsKept srv t io type arg n s ne kept = kept
handle-IsKept srv t io pwd arg n s ne kept = kept
handle-IsKept srv t io cwd arg n s ne kept = kept
handle-IsKept srv t io noop arg n s ne kept = kept
handle-IsKept srv t io quit arg n s ne kept = kept
handle-IsKept srv t io pasv arg n s ne kept = passive_of-IsKept n s io _ kept
handle-IsKept srv t io epsv arg n s ne kept = passive_of-IsKept n s io extended kept
handle-IsKept srv t io stor arg n s ne kept = when_ready-IsKept n s _ kept
handle-IsKept srv t io retr arg n s ne kept = when_ready-IsKept n s _ kept
handle-IsKept srv t io list arg n s ne kept = when_ready-IsKept n s _ kept
handle-IsKept srv t io dele arg n s ne (out, few) =
    done-IsKept n s 250 550 (delete_file t s.session.user_name arg s.fs) out
      (omega (arith, length-delete_file t s.session.user_name s.fs arg))
handle-IsKept srv t io rnfr arg n s ne kept = kept
handle-IsKept srv t io rnto arg n s ne (out, few) = elim (Bool-cases (s.session.rnfr_path == "")) [
  | inl none_given ↦ rw none_given (out, few)
  | inr given ↦ rw given (
      done-IsKept n (with_session s (record s.session { rnfr_path = "" })) 250 550
        (rename_file t s.session.user_name s.session.rnfr_path arg s.fs) out
        (omega (arith, length-rename_file t s.session.user_name s.fs s.session.rnfr_path arg)))
]
handle-IsKept srv t io size arg n s ne kept =
    elim (Option-cases (size_of t s.session.user_name arg s.fs)) [
      | inl missing ↦ rw (handle, missing) kept
      | inr (bytes, found) ↦ rw (handle, found) kept
    ]
handle-IsKept srv t io unknown arg n s ne kept = kept

-- On a connection that is not logged in, as long as no line is a PASS, nobody is logged in and
-- the number of files does not grow.
pub serve-IsKept :
    (srv : Server) (t : Texts) (lines : List (String × Io)) (n : ℕ) (s : State)
    → All (λ l. command_of (split_cmd t l.0).0 ≢ pass) lines
    → s.session.authed ≡ false
    → length s.fs.files ≤ n
    → (((serve srv t lines s).session.authed ≡ false) × (length (serve srv t lines s).fs.files ≤ n))
unfolding serve
serve-IsKept srv t [] n s _ out few = (out, few)
serve-IsKept srv t ((line, io) ∷ lines) n s (first, others) out few =
    let (cmd, arg) = split_cmd t line in
    let next = handle-IsKept srv t io (command_of cmd) arg n s first (out, few) in
    if_elim (IsKept n) (handle srv t io (command_of cmd) arg s).2 _ _
      (serve-IsKept srv t lines n (handle srv t io (command_of cmd) arg s).0 others next.0 next.1)
      next
