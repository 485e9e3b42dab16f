-- ===== src/MockFtp/Unique.antt =====
-- mockftp/server.go: the map of the files keeps one entry for a key.
use utilities.Base.{
  ℕ, ◌+◌, String, ◌&&◌, Bool-cases, some, Option-cases, inl, inr, List, [], ◌∷◌, Dict, lookup, has,
  IsUnique, insert-IsUnique, delete-IsUnique, if_elim, string_keyed, ◌==◌, ◌≡◌, subst,
}
use utilities.MockFtp.Files.{
  Texts, MockFs, FileState, split_path, file_key, or_inbox, or_outbox, store_begin, store_end,
  store, evict_sources, read_file, delete_file, rename_file,
}
use utilities.MockFtp.Promote.{Pending, promoted, promote_one, promote_ready}

-- The keys of the map are different.
abbrev pub IsMap : MockFs → Type 0
IsMap fs = IsUnique fs.files

pub store-IsMap :
    (t : Texts) (name p : String) (bytes : List ℕ) (now : ℕ) (fs : MockFs)
    → IsMap fs
    → IsMap (store t name p bytes now fs)
unfolding store store_begin store_end
store-IsMap t name p bytes now fs unique =
    let key = file_key name (or_inbox (split_path t p).0) (split_path t p).1 in
    let begun = insert-IsUnique key _ fs.files unique in
    elim (Option-cases (lookup key (store_begin t name p fs).files)) [
      | inl missing ↦ rw (store, store_end, missing) begun
      | inr (st, found) ↦ rw (store, store_end, found) (insert-IsUnique key _ _ begun)
    ]

evict_sources-IsUnique :
    (name base : String) (routes : Dict String String) (files : Dict String FileState)
    → IsUnique files
    → IsUnique (evict_sources name base routes files)
unfolding evict_sources
evict_sources-IsUnique name base [] files unique = unique
evict_sources-IsUnique name base ((src, dst) ∷ routes) files unique =
    evict_sources-IsUnique name base routes _ (
      if_elim IsUnique (dst == name) _ files
        (delete-IsUnique _ _ (delete-IsUnique (file_key src "inbox" base) files unique)) unique)

pub read_file-IsMap :
    (t : Texts) (name p : String) (fs : MockFs) → IsMap fs → IsMap (read_file t name p fs).0
unfolding read_file
read_file-IsMap t name p fs unique =
    let key = file_key name (or_outbox (split_path t p).0) (split_path t p).1 in
    elim (Option-cases (lookup key fs.files)) [
      | inl missing ↦ rw (read_file, missing) unique
      | inr (st, found) ↦
          rw (read_file, found)
            (if_elim IsMap (or_outbox (split_path t p).0 == "outbox" && fs.evict_after_read) _ fs
              (evict_sources-IsUnique name _ fs.routes _ (delete-IsUnique key fs.files unique))
              unique)
    ]

pub delete_file-IsMap :
    (t : Texts) (name p : String) (fs : MockFs) → IsMap fs → IsMap (delete_file t name p fs).0
unfolding delete_file
delete_file-IsMap t name p fs unique =
    let key = file_key name (split_path t p).0 (split_path t p).1 in
    elim (Bool-cases (has key fs.files)) [
      | inl found ↦ rw (delete_file, found) (delete-IsUnique key fs.files unique)
      | inr missing ↦ rw (delete_file, missing) unique
    ]

pub rename_file-IsMap :
    (t : Texts) (name from to : String) (fs : MockFs)
    → IsMap fs
    → IsMap (rename_file t name from to fs).0
unfolding rename_file
rename_file-IsMap t name from to fs unique =
    let src = file_key name (split_path t from).0 (split_path t from).1 in
    elim (Option-cases (lookup src fs.files)) [
      | inl missing ↦ rw (rename_file, missing) unique
      | inr (st, found) ↦
          rw (rename_file, found) (insert-IsUnique _ st _ (delete-IsUnique src fs.files unique))
    ]

promoted-IsMap :
    (now : ℕ) (id : String) (p : Pending) (st : FileState) (fs : MockFs)
    → IsMap fs
    → IsMap (promoted now id p st fs)
unfolding promoted
promoted-IsMap now id p st fs unique =
    insert-IsUnique _ _ _
      (insert-IsUnique _ _ _ (delete-IsUnique p.old_key _ (insert-IsUnique _ _ fs.files unique)))

pub promote_ready-IsMap :
    (now : ℕ) (ids : ℕ → String) (i : ℕ) (ps : List Pending) (fs after : MockFs)
    → IsMap fs
    → promote_ready now ids i ps fs ≡ some after
    → IsMap after
unfolding promote_ready promote_one
promote_ready-IsMap now ids i [] fs after unique h =
    let same : fs ≡ after = cc in subst IsMap same unique
promote_ready-IsMap now ids i (p ∷ ps) fs after unique h =
    elim (Option-cases (lookup p.old_key fs.files)) [
      | inl gone ↦ let wrong = rw (promote_ready, promote_one, gone) at h in cc
      | inr (st, found) ↦
          promote_ready-IsMap now ids (i + 1) ps (promoted now (ids i) p st fs) after
            (promoted-IsMap now (ids i) p st fs unique)
            (rw (promote_ready, promote_one, found) at h)
    ]
