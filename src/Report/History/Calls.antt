-- ===== src/Report/History/Calls.antt =====
-- report.go: each call outside a flush, on a store with its indexes in range.
use utilities.Base.{
  ℕ, suc, ◌<◌, ◌≡◌, refl, ap, String, Bool, true, false, Option, none, some, [], ◌∷◌, length,
  length-set, get_elem?, get_elem?_of_lt, set, arith, string_keyed, zero, Bool-cases, inl, inr,
}
use utilities.Report.Record.{Time, FileRecord, DownloadResult, record_key, apply_download, empty?}
use utilities.Report.Store.{
  Store, attach_at, attach_row, track_at, attach_track_id, attach_download_by_filename_id,
  attach_download_by_basename, attach_download,
}
use utilities.Report.Flush.{stamp_rows, is_pending, stamp_pending_downloads}
use utilities.Report.Bounds.{IsBounded, Indexed-lookup, attach_row-IsBounded, slots-IsBounded}
use utilities.Report.History.Slots.{Slots, Keeps}
use utilities.Report.History.Invariant.{Calm, Calm-refl, set_row-Calm}

attach_row-Calm :
    (s : Store) (i : ℕ) (r : FileRecord) (d : DownloadResult)
    → IsBounded s
    → Calm 0 s (attach_row s i r d)
unfolding attach_row
attach_row-Calm s i r d b =
    set_row-Calm s (attach_row s i r d) i (apply_download r d) refl (attach_row-IsBounded s i r d b)

-- An attach at an index in range returns.
attach_at-Calm :
    (s : Store) (o : Option ℕ) (d : DownloadResult)
    → IsBounded s
    → ((i : ℕ) → o ≡ some i → i < length s.records)
    → (t : Store) × (done : Bool) × (attach_at s o d ≡ some (t, done)) × Calm 0 s t
unfolding attach_at
attach_at-Calm s none d b h = (s, false, refl, Calm-refl s b)
attach_at-Calm s (some i) d b h =
    let (slot, e) = get_elem?_of_lt s.records i (h i refl) in go slot e
  where
    go :
        (slot : Option FileRecord)
        → get_elem? s.records i ≡ some slot
        → (t : Store) × (done : Bool) × (attach_at s (some i) d ≡ some (t, done)) × Calm 0 s t
    go none e = (s, false, ground arith, Calm-refl s b)
    go (some r) e = (attach_row s i r d, true, ground arith, attach_row-Calm s i r d b)

pub attach_download_by_filename_id-Calm :
    (s : Store) (marker : String) (d : DownloadResult)
    → IsBounded s
    → (t : Store) × (done : Bool) × (attach_download_by_filename_id s marker d ≡ some (t, done))
      × Calm 0 s t
unfolding attach_download_by_filename_id
attach_download_by_filename_id-Calm s marker d b =
    attach_at-Calm s _ d b (λ i e. Indexed-lookup _ marker s.by_filename_id i b.filename_ids e)

pub attach_download_by_basename-Calm :
    (s : Store) (name : String) (d : DownloadResult)
    → IsBounded s
    → (t : Store) × (done : Bool) × (attach_download_by_basename s name d ≡ some (t, done))
      × Calm 0 s t
unfolding attach_download_by_basename
attach_download_by_basename-Calm s name d b =
    attach_at-Calm s _ d b (λ i e. Indexed-lookup _ name s.by_basename i b.basenames e)

pub attach_download-Calm :
    (s : Store) (user file : String) (d : DownloadResult)
    → IsBounded s
    → (t : Store) × (done : Bool) × (attach_download s user file d ≡ some (t, done)) × Calm 0 s t
unfolding attach_download
attach_download-Calm s user file d b =
    attach_at-Calm s _ d b (λ i e. Indexed-lookup _ (record_key user file) s.by_key i b.keys e)

track_at-Calm :
    (s : Store) (o : Option ℕ) (change : FileRecord → FileRecord)
    → IsBounded s
    → ((i : ℕ) → o ≡ some i → i < length s.records)
    → (t : Store) × (track_at s o change ≡ some t) × Calm 0 s t
unfolding track_at
track_at-Calm s none change b h = (s, refl, Calm-refl s b)
track_at-Calm s (some i) change b h =
    let (slot, e) = get_elem?_of_lt s.records i (h i refl) in go slot e
  where
    go :
        (slot : Option FileRecord)
        → get_elem? s.records i ≡ some slot
        → (t : Store) × (track_at s (some i) change ≡ some t) × Calm 0 s t
    go none e = (s, ground arith, Calm-refl s b)
    go (some r) e =
        let t : Store = record s { records = set s.records i (some (change r)) } in
        (
          t,
          ground arith,
          set_row-Calm s t i (change r) refl
              (slots-IsBounded s _ (length-set s.records i (some (change r))) b),
        )

pub attach_track_id-Calm :
    (s : Store) (user file id : String) (at : Time) (late : Bool)
    → IsBounded s
    → (t : Store) × (attach_track_id s user file id at late ≡ some t) × Calm 0 s t
unfolding attach_track_id
attach_track_id-Calm s user file id at late b =
    track_at-Calm s _ _ b (λ i e. Indexed-lookup _ (record_key user file) s.by_key i b.keys e)

length-stamp_rows : (code : String) (rs : Slots) → length (stamp_rows code rs).0 ≡ length rs
unfolding stamp_rows
length-stamp_rows code [] = refl
length-stamp_rows code (none ∷ rs) = ap suc (length-stamp_rows code rs)
length-stamp_rows code (some r ∷ rs) = ground (arith, length-stamp_rows code rs)

-- A row in front that is replaced.
Keeps-cons :
    (r r' : FileRecord) (rs rs' : Slots) → Keeps rs rs' → Keeps (some r ∷ rs) (some r' ∷ rs')
Keeps-cons r r' rs rs' k zero h = cc
Keeps-cons r r' rs rs' k (suc i) h = k i h

stamp_rows-Keeps : (code : String) (rs : Slots) → Keeps rs (stamp_rows code rs).0
unfolding stamp_rows
stamp_rows-Keeps code [] i h = h
stamp_rows-Keeps code (none ∷ rs) zero h = h
stamp_rows-Keeps code (none ∷ rs) (suc i) h = stamp_rows-Keeps code rs i h
stamp_rows-Keeps code (some r ∷ rs) i h = elim (Bool-cases (is_pending r)) [
  | inl e ↦
      Keeps-cons r (record r { download_error = code }) rs _ (stamp_rows-Keeps code rs) i
        (rw (stamp_rows, e) at h)
  | inr e ↦ Keeps-cons r r rs _ (stamp_rows-Keeps code rs) i (rw (stamp_rows, e) at h)
]

pub stamp_pending_downloads-Calm :
    (s : Store) (code : String) → IsBounded s → Calm 0 s (stamp_pending_downloads s code).0
unfolding stamp_pending_downloads
stamp_pending_downloads-Calm s code b = elim (Bool-cases (empty? code)) [
  | inl e ↦ rw e (Calm-refl s b)
  | inr e ↦ rw e (record {
    bounded = slots-IsBounded s _ (length-stamp_rows code s.records) b;
    keeps = stamp_rows-Keeps code s.records;
    size = omega (arith, length-stamp_rows code s.records);
  })
]
