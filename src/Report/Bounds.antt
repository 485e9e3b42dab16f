-- ===== src/Report/Bounds.antt =====
-- report.go: the range of the indexes that the maps of the store hold, and the single calls.
use utilities.Base.{
  ℕ, suc, ◌-◌, ◌≤◌, ◌<◌, ◌≡◌, sym, subst, String, Option, none, some, List, [], ◌∷◌, ◌++◌, Keyed,
  Dict, lookup, insert, delete, string_keyed, nat_keyed, length, length-append, length-set, All,
  arith, length-drop,
}
use utilities.Report.Record.{FileRecord, DownloadResult, unix_minute, record_key, apply_download}
use utilities.Report.Store.{Store, attach_row, new_store, add_upload, indexes_at}
use utilities.Report.Flush.{keep_tail, release}

-- Every value of the map is an index below `n`.
abbrev pub Indexed {ℓ} : {K : Type ℓ} → ℕ → Dict K ℕ → Type 0
Indexed n m = All (λ e. e.1 < n) m

abbrev pub Below : ℕ → List ℕ → Type 0
Below n = All (λ i. i < n)

abbrev pub IndexedLists : ℕ → Dict ℕ (List ℕ) → Type 0
IndexedLists n m = All (λ e. Below n e.1) m

-- The maps hold indices below `n`, and the tail of flushed rows is within its cap.
pub record Within (n : ℕ) (s : Store) : Type 0 where
  pub keys : Indexed n s.by_key
  pub basenames : Indexed n s.by_basename
  pub filename_ids : Indexed n s.by_filename_id
  pub minutes : IndexedLists n s.by_minute
  pub tail : length s.recent_tail ≤ s.recent_tail_cap

abbrev pub IsBounded : Store → Type 0
IsBounded s = Within (length s.records) s

module _ {ℓ} {K : Type ℓ} ⦃e : Keyed K⦄ where
  pub Indexed-mono : (n n' : ℕ) (m : Dict K ℕ) → n ≤ n' → Indexed n m → Indexed n' m
  Indexed-mono n n' [] h b = tt
  Indexed-mono n n' ((j, i) ∷ m) h b = (omega arith, Indexed-mono n n' m h b.1)

  pub Indexed-insert :
      (n : ℕ) (k : K) (i : ℕ) (m : Dict K ℕ) → i < n → Indexed n m → Indexed n (insert k i m)
  unfolding insert
  Indexed-insert n k i [] h b = (h, tt)
  Indexed-insert n k i ((j, w) ∷ m) h b = ground (arith, Indexed-insert n k i m h b.1)

  pub Indexed-delete : (n : ℕ) (k : K) (m : Dict K ℕ) → Indexed n m → Indexed n (delete k m)
  unfolding delete
  Indexed-delete n k [] b = tt
  Indexed-delete n k ((j, w) ∷ m) b = ground (arith, Indexed-delete n k m b.1)

  pub Indexed-lookup :
      (n : ℕ) (k : K) (m : Dict K ℕ) (i : ℕ) → Indexed n m → lookup k m ≡ some i → i < n
  unfolding lookup
  Indexed-lookup n k [] i b h = cc
  Indexed-lookup n k ((j, w) ∷ m) i b h = ground (arith, Indexed-lookup n k m i b.1)

pub Below-mono : (n n' : ℕ) (is : List ℕ) → n ≤ n' → Below n is → Below n' is
Below-mono n n' [] h b = tt
Below-mono n n' (i ∷ is) h b = (omega arith, Below-mono n n' is h b.1)

Below-append : (n : ℕ) (is js : List ℕ) → Below n is → Below n js → Below n (is ++ js)
Below-append n [] js b c = c
Below-append n (i ∷ is) js b c = (b.0, Below-append n is js b.1 c)

IndexedLists-mono : (n n' : ℕ) (m : Dict ℕ (List ℕ)) → n ≤ n' → IndexedLists n m → IndexedLists n' m
IndexedLists-mono n n' [] h b = tt
IndexedLists-mono n n' ((k, is) ∷ m) h b =
    (Below-mono n n' is h b.0, IndexedLists-mono n n' m h b.1)

IndexedLists-insert :
    (n k : ℕ) (is : List ℕ) (m : Dict ℕ (List ℕ))
    → Below n is
    → IndexedLists n m
    → IndexedLists n (insert k is m)
unfolding insert
IndexedLists-insert n k is [] h b = (h, tt)
IndexedLists-insert n k is ((j, w) ∷ m) h b = ground (arith, IndexedLists-insert n k is m h b.1)

indexes_at-Below : (n k : ℕ) (m : Dict ℕ (List ℕ)) → IndexedLists n m → Below n (indexes_at m k)
unfolding lookup
indexes_at-Below n k [] b = tt
indexes_at-Below n k ((j, w) ∷ m) b = ground (arith, indexes_at-Below n k m b.1)

pub new_store-IsBounded : IsBounded new_store
unfolding new_store
new_store-IsBounded = record {
  keys = tt;
  basenames = tt;
  filename_ids = tt;
  minutes = tt;
  tail = omega arith;
}

add_minute-IndexedLists :
    (n m : ℕ) (minutes : Dict ℕ (List ℕ))
    → IndexedLists n minutes
    → IndexedLists (suc n) (insert m (indexes_at minutes m ++ n ∷ []) minutes)
add_minute-IndexedLists n m minutes b =
    let wider = IndexedLists-mono n (suc n) minutes (omega arith) b in
    IndexedLists-insert (suc n) m _ minutes
      (Below-append (suc n) (indexes_at minutes m) (n ∷ [])
        (indexes_at-Below (suc n) m minutes wider) (omega arith, tt))
      wider

add_key-Indexed :
    (n : ℕ) (k : String) (m : Dict String ℕ) → Indexed n m → Indexed (suc n) (insert k n m)
add_key-Indexed n k m b =
    Indexed-insert (suc n) k n m (omega arith) (Indexed-mono n (suc n) m (omega arith) b)

-- Adding a row keeps every index in range.
pub add_upload-IsBounded : (s : Store) (r : FileRecord) → IsBounded s → IsBounded (add_upload s r)
unfolding add_upload
add_upload-IsBounded s r b =
    subst (λ k. Within k (add_upload s r)) grown
      (record {
        keys = add_key-Indexed n (record_key r.user r.filename) s.by_key b.keys;
        basenames = add_key-Indexed n r.filename s.by_basename b.basenames;
        filename_ids = ground (
          arith,
          Indexed-mono n (suc n) s.by_filename_id (omega arith) b.filename_ids,
          add_key-Indexed n r.filename_id s.by_filename_id b.filename_ids,
        );
        minutes = ground (
          arith,
          IndexedLists-mono n (suc n) s.by_minute (omega arith) b.minutes,
          add_minute-IndexedLists n (unix_minute r.start_time) s.by_minute b.minutes,
        );
        tail = b.tail;
      })
  where
    n : ℕ
    n = length s.records

    grown : suc n ≡ length (s.records ++ some r ∷ [])
    grown = omega (arith, length-append {0} s.records (some r ∷ []))

pub attach_row-IsBounded :
    (s : Store) (i : ℕ) (r : FileRecord) (d : DownloadResult)
    → IsBounded s
    → IsBounded (attach_row s i r d)
unfolding attach_row
attach_row-IsBounded s i r d b =
    subst (λ k. Within k (attach_row s i r d))
      (sym (length-set s.records i (some (apply_download r d))))
      (record {
        keys = b.keys;
        basenames = b.basenames;
        filename_ids = b.filename_ids;
        minutes = b.minutes;
        tail = b.tail;
      })

keep_tail-le : (cap : ℕ) (rows : List FileRecord) → length (keep_tail cap rows) ≤ cap
keep_tail-le cap rows = ground (arith, length-drop {0} (length rows - cap) rows)

-- Releasing a flushed row keeps the bounds and the cap of the tail.
pub release-IsBounded :
    (s : Store) (i : ℕ) (r : FileRecord) → IsBounded s → IsBounded (release s i r)
unfolding release
release-IsBounded s i r b =
    subst (λ k. Within k (release s i r)) (sym (length-set s.records i none))
      (record {
        keys = ground (arith, Indexed-delete n (record_key r.user r.filename) s.by_key b.keys);
        basenames = ground (arith, Indexed-delete n r.filename s.by_basename b.basenames);
        filename_ids =
            ground (arith, Indexed-delete n r.filename_id s.by_filename_id b.filename_ids);
        minutes = b.minutes;
        tail = keep_tail-le s.recent_tail_cap (s.recent_tail ++ r ∷ []);
      })
  where
    n : ℕ
    n = length s.records

-- Other rows in as many slots are as well bounded.
pub slots-IsBounded :
    (s : Store) (slots : List (Option FileRecord))
    → length slots ≡ length s.records
    → IsBounded s
    → IsBounded (record s { records = slots })
slots-IsBounded s slots e b =
    subst (λ k. Within k (record s { records = slots })) (sym e)
      (record {
        keys = b.keys;
        basenames = b.basenames;
        filename_ids = b.filename_ids;
        minutes = b.minutes;
        tail = b.tail;
      })
