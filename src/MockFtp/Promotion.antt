-- ===== src/MockFtp/Promotion.antt =====
-- mockftp/server.go: promoteAll finds every file that it has listed.
use utilities.Base.{
  ℕ, ◌+◌, ◌-◌, String, false, not, ◌||◌, Bool-cases, none, some, Option-cases, inl, inr, List, [],
  ◌∷◌, All, Dict, lookup, insert, delete, IsUnique, lookup-insert, lookup-delete, same_refl,
  string_keyed, ◌==◌, eqb, ltb, ◌≡◌, ◌≢◌, refl, sym, ap, subst,
}
use utilities.MockFtp.Promote.{
  Pending, pending_of, ready_files, promoted, promote_one, promote_ready, promote_all,
}
use utilities.MockFtp.Files.{MockFs, FileState, cut_slash, has_char}

-- The file of an entry is there.
abbrev IsPresent : Dict String FileState → Pending → Type 0
IsPresent files p = lookup p.old_key files ≢ none

abbrev AreDistinct : List Pending → Type 0
AreDistinct [] = Unit
AreDistinct (p ∷ ps) = All (λ q. (p.old_key == q.old_key) ≡ false) ps × AreDistinct ps

pending_of-key :
    (now delay : ℕ) (key : String) (st : FileState) (p : Pending)
    → pending_of now delay key st ≡ some p
    → p.old_key ≡ key
unfolding pending_of
pending_of-key now delay key st p h = elim (Bool-cases (eqb st.completed_at 0)) [
  | inl open_file ↦ let wrong = rw (pending_of, open_file) at h in cc
  | inr closed ↦ elim (Option-cases (cut_slash key)) [
    | inl short ↦ let wrong = rw (pending_of, closed, short) at h in cc
    | inr (parts, cut) ↦ elim (Option-cases (cut_slash parts.1)) [
      | inl short ↦ let wrong = rw (pending_of, closed, cut, short) at h in cc
      | inr (names, again) ↦
          elim (Bool-cases (
            not (names.0 == "inbox") || has_char 35 names.1 || ltb (now - st.completed_at) delay)) [
              | inl other ↦ let wrong = rw (pending_of, closed, cut, again, other) at h in cc
              | inr ready ↦
                  let made = rw (pending_of, closed, cut, again, ready) at h in
                  let same : record { old_key = key; user = parts.0; base = names.1 } ≡ p = cc in
                  ap (λ (q : Pending). q.old_key) (sym same)
            ]
    ]
  ]
]

lookup-cons_kept :
    (k j : String) (st : FileState) (files : Dict String FileState)
    → lookup k files ≢ none
    → lookup k ((j, st) ∷ files) ≢ none
unfolding lookup
lookup-cons_kept k j st files h = elim (Bool-cases (j == k)) [
  | inl same ↦ rw (lookup, same) (λ e. cc)
  | inr other ↦ rw (lookup, other) h
]

lookup-cons_self :
    (k : String) (st : FileState) (files : Dict String FileState)
    → lookup k ((k, st) ∷ files) ≢ none
unfolding lookup
lookup-cons_self k st files = rw (lookup, same_refl k) (λ e. cc)

All-both :
    {P Q R : Pending → Type 0} (ps : List Pending)
    → ((p : Pending) → P p → Q p → R p)
    → All P ps
    → All Q ps
    → All R ps
All-both [] f all other = tt
All-both (p ∷ ps) f (first, rest) (second, others) = (f p first second, All-both ps f rest others)

All-weaken :
    {P Q : Pending → Type 0} (ps : List Pending) → ((p : Pending) → P p → Q p) → All P ps → All Q ps
All-weaken [] f all = tt
All-weaken (p ∷ ps) f (first, rest) = (f p first, All-weaken ps f rest)

ready_files-IsPresent :
    (now delay : ℕ) (files : Dict String FileState)
    → All (IsPresent files) (ready_files now delay files)
unfolding ready_files
ready_files-IsPresent now delay [] = tt
ready_files-IsPresent now delay ((key, st) ∷ files) =
    let rest : All (IsPresent ((key, st) ∷ files)) (ready_files now delay files) =
      All-weaken (ready_files now delay files) (λ q h. lookup-cons_kept q.old_key key st files h)
        (ready_files-IsPresent now delay files) in
    elim (Option-cases (pending_of now delay key st)) [
      | inl skipped ↦ rw (ready_files, skipped) rest
      | inr (p, found) ↦
          rw (ready_files, found)
            (rw (pending_of-key now delay key st p found) (lookup-cons_self key st files), rest)
    ]

differs :
    (key other : String) (files : Dict String FileState)
    → lookup key files ≡ none
    → lookup other files ≢ none
    → (key == other) ≡ false
differs key other files absent there = elim (Bool-cases (key == other)) [
  | inr apart ↦ apart
  | inl same ↦
      absurd (
        there
          (subst (λ k. lookup k files ≡ none) ((string_keyed.same_iff key other).0 same) absent))
]

ready_files-AreDistinct :
    (now delay : ℕ) (files : Dict String FileState)
    → IsUnique files
    → AreDistinct (ready_files now delay files)
unfolding ready_files
ready_files-AreDistinct now delay [] _ = tt
ready_files-AreDistinct now delay ((key, st) ∷ files) (absent, unique) =
    let rest = ready_files-AreDistinct now delay files unique in
    elim (Option-cases (pending_of now delay key st)) [
      | inl skipped ↦ rw (ready_files, skipped) rest
      | inr (p, found) ↦
          let apart : All (λ q. (p.old_key == q.old_key) ≡ false) (ready_files now delay files) =
            All-weaken (ready_files now delay files)
              (λ q h.
                rw (pending_of-key now delay key st p found) (differs key q.old_key files absent h))
              (ready_files-IsPresent now delay files) in
          rw (ready_files, found) (apart, rest)
    ]

module _ (q : String) where
  insert_kept :
      (k : String) (st : FileState) (files : Dict String FileState)
      → lookup q files ≢ none
      → lookup q (insert k st files) ≢ none
  insert_kept k st files h = elim (Bool-cases (k == q)) [
    | inl same ↦ rw (lookup-insert k q st files, same) (λ e. cc)
    | inr other ↦ rw (lookup-insert k q st files, other) h
  ]

  delete_kept :
      (k : String) (files : Dict String FileState)
      → (k == q) ≡ false
      → lookup q files ≢ none
      → lookup q (delete k files) ≢ none
  delete_kept k files other h = rw (lookup-delete k q files, other) h

promoted_kept :
    (now : ℕ) (id : String) (p q : Pending) (st : FileState) (fs : MockFs)
    → IsPresent fs.files q
    → (p.old_key == q.old_key) ≡ false
    → IsPresent (promoted now id p st fs).files q
unfolding promoted
promoted_kept now id p q st fs h other = insert_kept q.old_key _ _ _ (
    insert_kept q.old_key _ _ _
      (delete_kept q.old_key p.old_key _ other (insert_kept q.old_key _ _ fs.files h)))

-- One file moves, and each other one that is waiting is still there.
promote_one-some :
    (now : ℕ) (id : String) (p : Pending) (ps : List Pending) (fs : MockFs)
    → IsPresent fs.files p
    → All (IsPresent fs.files) ps
    → All (λ q. (p.old_key == q.old_key) ≡ false) ps
    → (next : MockFs) × (promote_one now id p fs ≡ some next) × All (IsPresent next.files) ps
unfolding promote_one
promote_one-some now id p ps fs here there apart = elim (Option-cases (lookup p.old_key fs.files)) [
  | inl gone ↦ absurd (here gone)
  | inr (st, found) ↦ (
    promoted now id p st fs,
    rw (promote_one, found) refl,
    All-both ps (λ q h other. promoted_kept now id p q st fs h other) there apart,
  )
]

promote_ready-some :
    (now : ℕ) (ids : ℕ → String) (i : ℕ) (ps : List Pending) (fs : MockFs)
    → All (IsPresent fs.files) ps
    → AreDistinct ps
    → (after : MockFs) × (promote_ready now ids i ps fs ≡ some after)
unfolding promote_ready
promote_ready-some now ids i [] fs there distinct = (fs, refl)
promote_ready-some now ids i (p ∷ ps) fs (here, there) (apart, distinct) =
    let (next, moved, still) = promote_one-some now (ids i) p ps fs here there apart in
    let (after, done) = promote_ready-some now ids (i + 1) ps next still distinct in
    (after, rw (promote_ready, moved) done)

-- Where each key has one file, a promotion ends without a file that is missing: no file of the
-- list that it has made is gone when its turn comes, whatever the earlier ones have done.
pub promote_all-some :
    (now : ℕ) (ids : ℕ → String) (fs : MockFs)
    → IsUnique fs.files
    → (after : MockFs) × (promote_all now ids fs ≡ some after)
unfolding promote_all
promote_all-some now ids fs unique =
    promote_ready-some now ids 0 (ready_files now fs.delay fs.files) fs
      (ready_files-IsPresent now fs.delay fs.files)
      (ready_files-AreDistinct now fs.delay fs.files unique)
