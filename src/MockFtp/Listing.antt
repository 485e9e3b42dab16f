-- ===== src/MockFtp/Listing.antt =====
-- mockftp/server.go: a listing is answered, whatever a connection has done before it.
use utilities.Base.{
  ℕ, String, Bool, true, not, ◌&&◌, ◌||◌, Bool-cases, Option-cases, inl, inr, List, [], ◌∷◌,
  IsUnique, if_elim, string_keyed, ◌==◌, ◌≡◌, refl,
}
use utilities.MockFtp.Files.{Texts, MockFs, read_file, delete_file, rename_file, size_of}
use utilities.MockFtp.Promote.{promote_all}
use utilities.MockFtp.Promotion.{promote_all-some}
use utilities.MockFtp.Unique.{
  IsMap, store-IsMap, read_file-IsMap, delete_file-IsMap, rename_file-IsMap, promote_ready-IsMap,
}
use utilities.MockFtp.Commands.{
  Command, user, pass, auth, pbsz, prot, feat, opts, syst, type, pwd, cwd, noop, quit, pasv, epsv,
  stor, retr, list, dele, rnfr, rnto, size, unknown, command_of, split_cmd,
}
use utilities.MockFtp.Control.{
  Server, Io, State, Outcome, Reply, done, answer, when_ready, passive_of, open_passive, close_data,
  extended, transfer, body, code, fails_for, with_session, map_fs, do_stor, do_retr, do_list,
  handle, serve,
}

transfer-IsMap : (io : Io) (s : State) (r : Reply) → IsMap s.fs → IsMap (transfer io s r).0.fs
transfer-IsMap io s r unique =
    if_elim (λ (o : Outcome). IsMap o.0.fs) (not io.accepts) _ _ unique unique

when_ready-IsMap :
    (s : State) (next : Outcome) → IsMap s.fs → IsMap next.0.fs → IsMap (when_ready s next).0.fs
when_ready-IsMap s next unique later =
    let P = λ (o : Outcome). IsMap o.0.fs in
    if_elim P (not s.session.authed) (answer s 530) _ unique
      (if_elim P (not s.session.listening) (answer s 425) next unique later)

done-IsMap :
    (s : State) (good bad : ℕ) (r : MockFs × Bool) → IsMap r.0 → IsMap (done s good bad r).0.fs
done-IsMap s good bad (fs, ok) unique = unique

passive_of-IsMap :
    (s : State) (io : Io) (reply : ℕ → Reply)
    → IsMap s.fs
    → IsMap (passive_of (close_data s) reply (open_passive io s)).0.fs
passive_of-IsMap s io reply unique = elim (Option-cases io.port) [
  | inl failed ↦ rw failed unique
  | inr (port, opened) ↦ rw opened unique
]

module _ (t : Texts) (io : Io) (arg : String) (s : State) (unique : IsMap s.fs) where
  do_stor-IsMap : IsMap (do_stor t io arg s).0.fs
  unfolding do_stor
  do_stor-IsMap =
      let P = λ (o : Outcome). IsMap o.0.fs in
      if_elim P (fails_for s.fs s.session.user_name) (answer (close_data s) 550) _ unique (
        if_elim P (not io.accepts) (close_data s, code 150 ∷ code 550 ∷ [], true) _ unique
          (store-IsMap t s.session.user_name arg io.bytes io.now s.fs unique))

  do_retr-IsMap : IsMap (do_retr t io arg s).0.fs
  unfolding do_retr
  do_retr-IsMap =
      let after = read_file-IsMap t s.session.user_name arg s.fs unique in
      elim (Option-cases (read_file t s.session.user_name arg s.fs).1) [
        | inl missing ↦ rw (do_retr, missing) after
        | inr (bytes, found) ↦
            rw (do_retr, found)
              (transfer-IsMap io (map_fs s (read_file t s.session.user_name arg s.fs).0)
                (body bytes) after)
      ]

  do_list-IsMap : IsMap (do_list t io arg s).0.fs
  unfolding do_list promote_all
  do_list-IsMap = elim (Option-cases (promote_all io.now io.ids s.fs)) [
    | inl gone ↦ rw (do_list, gone) unique
    | inr (fs, made) ↦
        rw (do_list, made)
          (transfer-IsMap io (map_fs s fs) _
            (promote_ready-IsMap io.now io.ids 0 _ s.fs fs unique made))
  ]

-- One command keeps the map, whichever it is.
handle-IsMap :
    (srv : Server) (t : Texts) (io : Io) (cmd : Command) (arg : String) (s : State)
    → IsMap s.fs
    → IsMap (handle srv t io cmd arg s).0.fs
unfolding handle
handle-IsMap srv t io user arg s unique = unique
handle-IsMap srv t io pass arg s unique =
    if_elim (λ (o : Outcome). IsMap o.0.fs) (s.session.user_name == "") _ _ unique unique
handle-IsMap srv t io auth arg s unique =
    elim (Bool-cases (not srv.allow_explicit || not srv.has_tls)) [
      | inl off ↦ rw (handle, off) unique
      | inr on ↦
          elim (Bool-cases (not (t.to_upper arg == "TLS") && not (t.to_upper arg == "TLS-C"))) [
            | inl other ↦ rw (handle, on, other) unique
            | inr tls ↦ elim (Bool-cases io.handshake) [
              | inl works ↦ rw (handle, on, tls, works) unique
              | inr fails ↦ rw (handle, on, tls, fails) unique
            ]
          ]
    ]
handle-IsMap srv t io pbsz arg s unique = unique
handle-IsMap srv t io prot arg s unique = unique
handle-IsMap srv t io feat arg s unique = unique
handle-IsMap srv t io opts arg s unique = unique
handle-IsMap srv t io syst arg s unique = unique
handle-IsMap srv t io type arg s unique = unique
handle-IsMap srv t io pwd arg s unique = unique
handle-IsMap srv t io cwd arg s unique = unique
handle-IsMap srv t io noop arg s unique = unique
handle-IsMap srv t io quit arg s unique = unique
handle-IsMap srv t io pasv arg s unique = passive_of-IsMap s io _ unique
handle-IsMap srv t io epsv arg s unique = passive_of-IsMap s io extended unique
handle-IsMap srv t io stor arg s unique =
    when_ready-IsMap s (do_stor t io arg s) unique (do_stor-IsMap t io arg s unique)
handle-IsMap srv t io retr arg s unique =
    when_ready-IsMap s (do_retr t io arg s) unique (do_retr-IsMap t io arg s unique)
handle-IsMap srv t io list arg s unique =
    when_ready-IsMap s (do_list t io arg s) unique (do_list-IsMap t io arg s unique)
handle-IsMap srv t io dele arg s unique =
    done-IsMap s 250 550 (delete_file t s.session.user_name arg s.fs)
      (delete_file-IsMap t s.session.user_name arg s.fs unique)
handle-IsMap srv t io rnfr arg s unique = unique
handle-IsMap srv t io rnto arg s unique = elim (Bool-cases (s.session.rnfr_path == "")) [
  | inl none_given ↦ rw none_given unique
  | inr given ↦ rw given (
      done-IsMap (with_session s (record s.session { rnfr_path = "" })) 250 550
        (rename_file t s.session.user_name s.session.rnfr_path arg s.fs)
        (rename_file-IsMap t s.session.user_name s.session.rnfr_path arg s.fs unique))
]
handle-IsMap srv t io size arg s unique =
    elim (Option-cases (size_of t s.session.user_name arg s.fs)) [
      | inl missing ↦ rw (handle, missing) unique
      | inr (bytes, found) ↦ rw (handle, found) unique
    ]
handle-IsMap srv t io unknown arg s unique = unique

serve-IsMap :
    (srv : Server) (t : Texts) (lines : List (String × Io)) (s : State)
    → IsMap s.fs
    → IsMap (serve srv t lines s).fs
unfolding serve
serve-IsMap srv t [] s unique = unique
serve-IsMap srv t ((line, io) ∷ lines) s unique =
    let (cmd, arg) = split_cmd t line in
    let next = handle-IsMap srv t io (command_of cmd) arg s unique in
    if_elim (λ (r : State). IsMap r.fs) (handle srv t io (command_of cmd) arg s).2 _ _
      (serve-IsMap srv t lines (handle srv t io (command_of cmd) arg s).0 next) next

transfer_goes_on : (io : Io) (s : State) (r : Reply) → (transfer io s r).2 ≡ true
transfer_goes_on io s r = if_elim (λ (o : Outcome). o.2 ≡ true) (not io.accepts) _ _ refl refl

-- Whatever lines a connection has sent to a server whose files have a key each, a listing that it
-- asks for next does not end the connection: the promotion before it finds every file that it has
-- listed as ready, also when it has moved others since.
pub list-serve :
    (srv : Server) (t : Texts) (lines : List (String × Io)) (s : State) (io : Io) (arg : String)
    → IsUnique s.fs.files
    → (handle srv t io list arg (serve srv t lines s)).2 ≡ true
unfolding handle do_list
list-serve srv t lines s io arg unique =
    let r = serve srv t lines s in
    let P = λ (o : Outcome). o.2 ≡ true in
    let (fs, made) = promote_all-some io.now io.ids r.fs (serve-IsMap srv t lines s unique) in
    if_elim P (not r.session.authed) (answer r 530) _ refl (
      if_elim P (not r.session.listening) (answer r 425) (do_list t io arg r) refl
        (rw (do_list, made) (transfer_goes_on io (map_fs r fs) _)))
