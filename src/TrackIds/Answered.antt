-- ===== src/TrackIds/Answered.antt =====
-- watcher.go: the two halves of `tick`, for one upload that is pending when it starts.
use utilities.Base.{
  ℕ, ◌<◌, ◌≡◌, refl, sym, subst, ◌∙◌, inl, inr, String, none, some, List, [], ◌∷◌, ◌++◌, Dict,
  lookup, insert, delete, lookup-delete, ◌==◌, string_keyed, same_refl, length, All, ltb, arith,
  Bool-cases, Option-cases,
}
use utilities.TrackIds.Watcher.{
  Entry, Result, Watcher, Server, Found, entry_key, send, timeout_of, found_of, add_entry, expire,
  prefix_map, detect, client_of, look, tick,
}
use utilities.TrackIds.Kept.{
  Answers, Kept, IsWatch, send-cases, Any-left, Any-last, expire-le, detect-le, look-le,
}

All-map :
    (P Q : String × Entry → Type 0)
    → ((p : String × Entry) → P p → Q p)
    → (entries : Dict String Entry) → All P entries
    → All Q entries
All-map P Q f [] all = tt
All-map P Q f (p ∷ entries) all = (f p all.0, All-map P Q f entries all.1)

-- In a map with unique keys each entry is the one of its key.
unique-All :
    (entries : Dict String Entry)
    → IsWatch entries
    → All (λ p. (lookup p.0 entries ≡ some p.1) × (entry_key p.1 ≡ p.0)) entries
unfolding lookup
unique-All [] watch = tt
unique-All ((k, e) ∷ entries) ((once, unique), (named, all)) = (
  (rw (same_refl k) refl, named),
  All-map (λ p. (lookup p.0 entries ≡ some p.1) × (entry_key p.1 ≡ p.0))
      (λ p. (lookup p.0 ((k, e) ∷ entries) ≡ some p.1) × (entry_key p.1 ≡ p.0))
      (λ p (there, name). (
        elim (Bool-cases (k == p.0)) [
          | inl same ↦
              let gone : lookup p.0 entries ≡ none =
                subst (λ j. lookup j entries ≡ none) ((string_keyed.same_iff k p.0).0 same) once in
              let both = sym gone ∙ there in cc
          | inr other ↦ rw other there
        ],
        name,
      ))
      entries (unique-All entries (unique, all)),
)

module _ (first : Dict String Entry) (k : String) (e : Entry)
    (pending_first : lookup k first ≡ some e) where
  -- An entry of the map that the tick has started with.
  abbrev Known : Entry → Type 0
  Known d = lookup (entry_key d) first ≡ some d

  Known-same : (d : Entry) → Known d → entry_key d ≡ k → d ≡ e
  Known-same d known same =
      let here : lookup k first ≡ some d = subst (λ j. lookup j first ≡ some d) same known in
      let both : some d ≡ some e = sym here ∙ pending_first in cc

  -- An entry that goes with a result about it.
  settle :
      (j : String) (d : Entry) (r : Result) (pending : Dict String Entry) (results : List Result)
      → Known d
      → entry_key d ≡ j
      → Answers d r
      → length (send r results) < 512
      → Kept k e (pending, results)
      → Kept k e (delete j pending, send r results)
  settle j d r pending results known named about room (inr done) =
      inr (rw (send-cases r results room) (Any-left e results (r ∷ []) done))
  settle j d r pending results known named about room (inl there) = elim (Bool-cases (j == k)) [
    | inl same ↦
        let it = Known-same d known (named ∙ (string_keyed.same_iff j k).0 same) in
        inr (
          rw (send-cases r results room) (Any-last e results r (subst (λ x. Answers x r) it about)))
    | inr other ↦ inl (lookup-delete j k pending ∙ rw other there)
  ]

  expire-Kept :
      (now : ℕ) (entries : Dict String Entry) (found : Found) (by_user : Dict String (List Entry))
      → All (λ p. (lookup p.0 first ≡ some p.1) × (entry_key p.1 ≡ p.0)) entries
      → length (expire now entries found by_user).0.1 < 512
      → Kept k e found
      → Kept k e (expire now entries found by_user).0
  unfolding expire
  expire-Kept now [] found by_user all room kept = kept
  expire-Kept now ((j, d) ∷ entries) (pending, results) by_user ((there, named), all) room kept =
      elim (Bool-cases (ltb d.deadline now)) [
        | inl late ↦
            let r = timeout_of now d in
            let room' = rw (late, expire) at room in
            let grown = expire-le now entries (delete j pending, send r results) by_user in
            let known : Known d = subst (λ x. lookup x first ≡ some d) (sym named) there in
            rw (late, expire)
              (expire-Kept now entries (delete j pending, send r results) by_user all room'
                (settle j d r pending results known named (refl, refl) (omega arith) kept))
        | inr early ↦
            let room' = rw (early, expire) at room in
            rw (early, expire)
              (expire-Kept now entries (pending, results) (add_entry d by_user) all room' kept)
      ]

  abbrev AllKnown : Dict String (List Entry) → Type 0
  AllKnown by_user = All (λ p. All Known p.1) by_user

  All-snoc : (es : List Entry) (d : Entry) → All Known es → Known d → All Known (es ++ d ∷ [])
  All-snoc [] d all h = (h, tt)
  All-snoc (x ∷ es) d all h = (all.0, All-snoc es d all.1 h)

  insert-AllKnown :
      (user : String) (es : List Entry) (by_user : Dict String (List Entry))
      → All Known es
      → AllKnown by_user
      → AllKnown (insert user es by_user)
  unfolding insert
  insert-AllKnown user es [] new all = (new, tt)
  insert-AllKnown user es ((name, old) ∷ by_user) new all = elim (Bool-cases (name == user)) [
    | inl same ↦ rw same (new, all.1)
    | inr other ↦ rw other (all.0, insert-AllKnown user es by_user new all.1)
  ]

  lookup-AllKnown :
      (user : String) (es : List Entry) (by_user : Dict String (List Entry))
      → lookup user by_user ≡ some es
      → AllKnown by_user
      → All Known es
  unfolding lookup
  lookup-AllKnown user es [] h all = cc
  lookup-AllKnown user es ((name, old) ∷ by_user) h all = elim (Bool-cases (name == user)) [
    | inl same ↦
        let here : some old ≡ some es = rw same at h in
        let it : old ≡ es = cc in subst (λ l. All Known l) it all.0
    | inr other ↦ lookup-AllKnown user es by_user (rw other at h) all.1
  ]

  add_entry-AllKnown :
      (d : Entry) (by_user : Dict String (List Entry))
      → Known d
      → AllKnown by_user
      → AllKnown (add_entry d by_user)
  add_entry-AllKnown d by_user known all = elim (Option-cases (lookup d.user by_user)) [
    | inl nobody ↦ rw nobody (insert-AllKnown d.user (d ∷ []) by_user (known, tt) all)
    | inr (es, there) ↦ rw there (
        insert-AllKnown d.user (es ++ d ∷ []) by_user
          (All-snoc es d (lookup-AllKnown d.user es by_user there all) known) all)
  ]

  expire-AllKnown :
      (now : ℕ) (entries : Dict String Entry) (found : Found) (by_user : Dict String (List Entry))
      → All (λ p. (lookup p.0 first ≡ some p.1) × (entry_key p.1 ≡ p.0)) entries
      → AllKnown by_user
      → AllKnown (expire now entries found by_user).1
  unfolding expire
  expire-AllKnown now [] found by_user all known = known
  expire-AllKnown now ((j, d) ∷ entries) (pending, results) by_user ((there, named), all) known =
      elim (Bool-cases (ltb d.deadline now)) [
        | inl late ↦
            rw (late, expire)
              (expire-AllKnown now entries (delete j pending, send (timeout_of now d) results)
                by_user all known)
        | inr early ↦
            let here : Known d = subst (λ x. lookup x first ≡ some d) (sym named) there in
            rw (early, expire)
              (expire-AllKnown now entries (pending, results) (add_entry d by_user) all
                (add_entry-AllKnown d by_user here known))
      ]

  detect-Kept :
      (now : ℕ) (ids : Dict String String) (es : List Entry) (found : Found)
      → All Known es
      → length (detect now ids es found).1 < 512
      → Kept k e found
      → Kept k e (detect now ids es found)
  unfolding detect
  detect-Kept now ids [] found all room kept = kept
  detect-Kept now ids (d ∷ es) (pending, results) all room kept =
      elim (Option-cases (lookup d.basename ids)) [
        | inl missing ↦
            let room' = rw (missing, detect) at room in
            rw (missing, detect) (detect-Kept now ids es (pending, results) all.1 room' kept)
        | inr (tid, there) ↦
            let r = found_of now tid d in
            let room' = rw (there, detect) at room in
            let grown = detect-le now ids es (delete (entry_key d) pending, send r results) in
            rw (there, detect)
              (detect-Kept now ids es (delete (entry_key d) pending, send r results) all.1 room'
                (settle (entry_key d) d r pending results all.0 refl (refl, refl) (omega arith)
                  kept))
      ]

  look-Kept :
      {Conn : Type 0} (server : Server Conn) (now : ℕ) (users : Dict String (List Entry))
      (clients : Dict String Conn) (found : Found)
      → AllKnown users
      → length (look server now users clients found).1.1 < 512
      → Kept k e found
      → Kept k e (look server now users clients found).1
  unfolding look
  look-Kept server now [] clients found all room kept = kept
  look-Kept server now ((user, es) ∷ users) clients found all room kept =
      elim (Option-cases (client_of server clients user)) [
        | inl closed ↦
            rw (closed, look)
              (look-Kept server now users clients found all.1 (rw (closed, look) at room) kept)
        | inr (c, opened) ↦ elim (Option-cases (server.names_in_folder c)) [
          | inl failed ↦
              rw (opened, look, failed)
                (look-Kept server now users (delete user clients) found all.1
                  (rw (opened, look, failed) at room) kept)
          | inr (names, listed) ↦
              let ids = prefix_map server.base names [] in
              let room' = rw (opened, look, listed) at room in
              let grown =
                look-le server now users (insert user c clients) (detect now ids es found) in
              rw (opened, look, listed)
                (look-Kept server now users (insert user c clients) (detect now ids es found) all.1
                  room' (detect-Kept now ids es found all.0 (omega arith) kept))
        ]
      ]

-- No upload is forgotten. Where the channel of results is not full after a tick, each upload that was
-- waited for is waited for still, with its deadline, or there is a result about it in the channel.
pub tick-Kept :
    {Conn : Type 0} (server : Server Conn) (now later : ℕ) (w : Watcher Conn) (k : String)
    (e : Entry)
    → IsWatch w.pending
    → lookup k w.pending ≡ some e
    → length (tick server now later w).results < 512
    → Kept k e ((tick server now later w).pending, (tick server now later w).results)
unfolding tick
tick-Kept server now later w k e watch there room =
    let all = unique-All w.pending watch in
    let start : Found = (w.pending, w.results) in
    let (found, by_user) = expire now w.pending start [] in
    let grown = look-le server later by_user w.clients found in
    look-Kept w.pending k e there server later by_user w.clients found
      (expire-AllKnown w.pending k e there now w.pending start [] all tt) room
      (expire-Kept w.pending k e there now w.pending start [] all (omega arith) (inl there))
