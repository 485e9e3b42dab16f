-- ===== src/TrackIds/Kept.antt =====
-- watcher.go: what becomes of an upload that the watcher waits for.
use utilities.Base.{
  ℕ, ◌≤◌, ◌<◌, ◌≡◌, refl, ◌⊎◌, inl, inr, String, some, List, [], ◌∷◌, ◌++◌, Dict, lookup, insert,
  delete, IsUnique, string_keyed, length, length-append, All, Any, ltb, arith, Bool-cases,
  Option-cases,
}
use utilities.TrackIds.Watcher.{
  Entry, Result, Server, Found, entry_key, send, timeout_of, found_of, add_entry, expire,
  prefix_map, detect, client_of, look,
}

-- The result is about the upload.
abbrev pub Answers : Entry → Result → Type 0
Answers e r = (r.user ≡ e.user) × (r.basename ≡ e.basename)

-- The upload is still waited for, or there is a result.
abbrev pub Kept : String → Entry → Found → Type 0
Kept k e found = (lookup k found.0 ≡ some e) ⊎ Any (Answers e) found.1

-- Each pending upload has one entry, under its key.
abbrev pub IsWatch : Dict String Entry → Type 0
IsWatch pending = IsUnique pending × All (λ p. entry_key p.1 ≡ p.0) pending

pub send-cases :
    (r : Result) (results : List Result)
    → length (send r results) < 512
    → send r results ≡ results ++ r ∷ []
unfolding send
send-cases r results room = elim (Bool-cases (ltb (length results) 512)) [
  | inl e ↦ rw e refl
  | inr e ↦ let full : length results < 512 = rw e at room in absurd (ground arith)
]

send-le : (r : Result) (results : List Result) → length results ≤ length (send r results)
unfolding send
send-le r results = elim (Bool-cases (ltb (length results) 512)) [
  | inl e ↦ rw e (omega (arith, length-append results (r ∷ [])))
  | inr e ↦ rw e (omega arith)
]

module _ (e : Entry) where
  pub Any-left : (xs ys : List Result) → Any (Answers e) xs → Any (Answers e) (xs ++ ys)
  Any-left [] ys h = elim h [ ]
  Any-left (x ∷ xs) ys (inl h) = inl h
  Any-left (x ∷ xs) ys (inr h) = inr (Any-left xs ys h)

  pub Any-last : (xs : List Result) (r : Result) → Answers e r → Any (Answers e) (xs ++ r ∷ [])
  Any-last [] r h = inl h
  Any-last (x ∷ xs) r h = inr (Any-last xs r h)

pub expire-le :
    (now : ℕ) (entries : Dict String Entry) (found : Found) (by_user : Dict String (List Entry))
    → length found.1 ≤ length (expire now entries found by_user).0.1
unfolding expire
expire-le now [] found by_user = omega arith
expire-le now ((k, e) ∷ entries) (pending, results) by_user =
    elim (Bool-cases (ltb e.deadline now)) [
      | inl late ↦
          let more = send-le (timeout_of now e) results in
          let rest =
            expire-le now entries (delete k pending, send (timeout_of now e) results) by_user in
          rw (late, expire) (omega arith)
      | inr early ↦
          rw (early, expire) (expire-le now entries (pending, results) (add_entry e by_user))
    ]

pub detect-le :
    (now : ℕ) (ids : Dict String String) (es : List Entry) (found : Found)
    → length found.1 ≤ length (detect now ids es found).1
unfolding detect
detect-le now ids [] found = omega arith
detect-le now ids (e ∷ es) (pending, results) = elim (Option-cases (lookup e.basename ids)) [
  | inl missing ↦ rw (missing, detect) (detect-le now ids es (pending, results))
  | inr (tid, there) ↦
      let more = send-le (found_of now tid e) results in
      let rest =
        detect-le now ids es (delete (entry_key e) pending, send (found_of now tid e) results) in
      rw (there, detect) (omega arith)
]

module _ {Conn : Type 0} (server : Server Conn) where
  pub look-le :
      (now : ℕ) (users : Dict String (List Entry)) (clients : Dict String Conn) (found : Found)
      → length found.1 ≤ length (look server now users clients found).1.1
  unfolding look
  look-le now [] clients found = omega arith
  look-le now ((user, es) ∷ users) clients found =
      elim (Option-cases (client_of server clients user)) [
        | inl closed ↦ rw (closed, look) (look-le now users clients found)
        | inr (c, open_now) ↦ elim (Option-cases (server.names_in_folder c)) [
          | inl failed ↦ rw (open_now, look, failed) (look-le now users (delete user clients) found)
          | inr (names, listed) ↦
              let ids = prefix_map server.base names [] in
              let more = detect-le now ids es found in
              let rest = look-le now users (insert user c clients) (detect now ids es found) in
              rw (open_now, look, listed) (omega arith)
        ]
      ]
