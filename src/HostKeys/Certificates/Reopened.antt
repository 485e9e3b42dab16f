-- ===== src/HostKeys/Certificates/Reopened.antt =====
-- hostkeys/tlsstore.go: a store that is read from the file that it wrote.
use utilities.Base.{
  ℕ, ◌≡◌, refl, sym, ap, subst, ◌∙◌, ◌⊎◌, inl, inr, String, Bool, true, false, Option, none, some,
  List, [], ◌∷◌, map, Dict, lookup, insert, delete, has, lookup-insert, IsUnique, insert-IsUnique,
  delete-IsUnique, ◌==◌, string_keyed, All, Any, All-sort_by, Any-sort_by, Bool-cases, Option-cases,
}
use utilities.HostKeys.Store.{Ssh, host_key}
use utilities.HostKeys.Certificates.{
  TlsEntry, TlsStore, Certificate, File, entry_less, tls_list, tls_save, load_hosts, open_tls,
  tls_verify, tls_entry, tls_add, tls_remove, save_now,
}

module _ {Key : Type 0} (ssh : Ssh Key) where
  abbrev key : TlsEntry → String
  key e = host_key ssh e.host e.port

  -- Each server has one entry, under its key.
  abbrev pub IsKeyed : Dict String TlsEntry → Type 0
  IsKeyed entries = IsUnique entries × All (λ p. key p.1 ≡ p.0) entries

  insert-All :
      (k : String) (e : TlsEntry) (entries : Dict String TlsEntry)
      → key e ≡ k
      → All (λ p. key p.1 ≡ p.0) entries
      → All (λ p. key p.1 ≡ p.0) (insert k e entries)
  unfolding insert
  insert-All k e [] named all = (named, tt)
  insert-All k e ((j, old) ∷ entries) named all = elim (Bool-cases (j == k)) [
    | inl same ↦ rw same (named ∙ sym ((string_keyed.same_iff j k).0 same), all.1)
    | inr other ↦ rw other (all.0, insert-All k e entries named all.1)
  ]

  delete-All :
      (k : String) (entries : Dict String TlsEntry)
      → All (λ p. key p.1 ≡ p.0) entries
      → All (λ p. key p.1 ≡ p.0) (delete k entries)
  unfolding delete
  delete-All k [] all = tt
  delete-All k ((j, old) ∷ entries) all = elim (Bool-cases (j == k)) [
    | inl same ↦ rw same (delete-All k entries all.1)
    | inr other ↦ rw other (all.0, delete-All k entries all.1)
  ]

  -- An entry that the key has, or no entry of the key.
  load_hosts-other :
      (k : String) (es : List TlsEntry) (entries : Dict String TlsEntry)
      → All (λ e. (key e == k) ≡ false) es
      → lookup k (load_hosts ssh es entries) ≡ lookup k entries
  unfolding load_hosts
  load_hosts-other k [] entries all = refl
  load_hosts-other k (e ∷ es) entries (this, all) =
      load_hosts-other k es (insert (key e) e entries) all
      ∙ lookup-insert (key e) k e entries
      ∙ rw this refl

  load_hosts-here :
      (k : String) (it : TlsEntry) (es : List TlsEntry) (entries : Dict String TlsEntry)
      → All (λ e. (key e == k) ≡ true → e ≡ it) es
      → (lookup k entries ≡ some it) ⊎ Any (λ e. (e ≡ it) × ((key e == k) ≡ true)) es
      → lookup k (load_hosts ssh es entries) ≡ some it
  unfolding load_hosts
  load_hosts-here k it [] entries all (inl there) = there
  load_hosts-here k it [] entries all (inr found) = elim found [ ]
  load_hosts-here k it (e ∷ es) entries (this, all) found =
      load_hosts-here k it es (insert (key e) e entries) all (elim (Bool-cases (key e == k)) [
        | inl same ↦
            inl (lookup-insert (key e) k e entries ∙ rw same (ap (λ x. some x) (this same)))
        | inr other ↦ elim found [
          | inl there ↦ inl (lookup-insert (key e) k e entries ∙ rw other there)
          | inr (inl (it_is, same)) ↦ cc
          | inr (inr later) ↦ inr later
        ]
      ])

  abbrev values : Dict String TlsEntry → List TlsEntry
  values entries = map (λ p. p.1) entries

  values-other :
      (k : String) (entries : Dict String TlsEntry)
      → IsKeyed entries
      → lookup k entries ≡ none
      → All (λ e. (key e == k) ≡ false) (values entries)
  unfolding lookup
  values-other k [] keyed h = tt
  values-other k ((j, e) ∷ entries) ((once, unique), (named, all)) h = elim (Bool-cases (j == k)) [
    | inl same ↦ let found = rw same at h in cc
    | inr other ↦ (rw named other, values-other k entries (unique, all) (rw other at h))
  ]

  weaken :
      (k : String) (it : TlsEntry) (es : List TlsEntry)
      → All (λ e. (key e == k) ≡ false) es
      → All (λ e. (key e == k) ≡ true → e ≡ it) es
  weaken k it [] all = tt
  weaken k it (e ∷ es) (this, all) = (λ h. cc, weaken k it es all)

  values-here :
      (k : String) (it : TlsEntry) (entries : Dict String TlsEntry)
      → IsKeyed entries
      → lookup k entries ≡ some it
      → All (λ e. (key e == k) ≡ true → e ≡ it) (values entries)
        × Any (λ e. (e ≡ it) × ((key e == k) ≡ true)) (values entries)
  unfolding lookup
  values-here k it [] keyed h = cc
  values-here k it ((j, e) ∷ entries) ((once, unique), (named, all)) h =
      elim (Bool-cases (j == k)) [
        | inl same ↦
            let found : some e ≡ some it = rw same at h in
            let it_is : e ≡ it = cc in
            let gone : lookup k entries ≡ none =
              subst (λ x. lookup x entries ≡ none) ((string_keyed.same_iff j k).0 same) once in
            (
              (
                λ x. it_is,
                weaken k it (values entries) (values-other k entries (unique, all) gone),
              ),
              inl (it_is, rw named same),
            )
        | inr other ↦
            let (every, some_one) = values-here k it entries (unique, all) (rw other at h) in
            ((λ same. let contra : (j == k) ≡ true = rw named at same in cc, every), inr some_one)
      ]

  reopened :
      (k : String) (s : TlsStore)
      → IsKeyed s.entries
      → lookup k (load_hosts ssh (tls_list s) []) ≡ lookup k s.entries
  unfolding tls_list lookup
  reopened k s keyed = elim (Option-cases (lookup k s.entries)) [
    | inl gone ↦
        load_hosts-other k (tls_list s) [] (
          All-sort_by (λ e. (key e == k) ≡ false) entry_less (values s.entries)
            (values-other k s.entries keyed gone))
        ∙ sym gone
    | inr (it, there) ↦
        let (every, some_one) = values-here k it s.entries keyed there in
        load_hosts-here k it (tls_list s) []
          (All-sort_by (λ e. (key e == k) ≡ true → e ≡ it) entry_less (values s.entries) every)
          (inr (
            Any-sort_by (λ e. (e ≡ it) × ((key e == k) ≡ true)) entry_less (values s.entries)
              some_one))
        ∙ sym there
  ]

  load_hosts-IsKeyed :
      (es : List TlsEntry) (entries : Dict String TlsEntry)
      → IsKeyed entries
      → IsKeyed (load_hosts ssh es entries)
  unfolding load_hosts
  load_hosts-IsKeyed [] entries keyed = keyed
  load_hosts-IsKeyed (e ∷ es) entries keyed =
      load_hosts-IsKeyed es (insert (key e) e entries)
        (insert-IsUnique (key e) e entries keyed.0, insert-All (key e) e entries refl keyed.1)

  -- A store that was opened, and then changed by `Add` and `Remove` and saved, whether or not the file was
  -- written.
  pub data Made : TlsStore → Type 0 where
    opened : (file : File) (s : TlsStore) → open_tls ssh file ≡ some s → Made s
    added :
        (works : Bool) (s : TlsStore) (host : String) (port : ℕ) (cert : Option Certificate)
        (now : ℕ)
        → Made s
        → Made (tls_add ssh works s host port cert now).0
    removed :
        (works : Bool) (s : TlsStore) (host : String) (port : ℕ)
        → Made s
        → Made (tls_remove ssh works s host port).0
    written : (works : Bool) (s : TlsStore) → Made s → Made (save_now works s).0

  open_tls-IsKeyed : (file : File) (s : TlsStore) → open_tls ssh file ≡ some s → IsKeyed s.entries
  unfolding open_tls
  open_tls-IsKeyed File.missing s e =
      let same : record { entries = []; saved = [] } ≡ s = cc in
      subst (λ t. IsKeyed t.entries) same (tt, tt)
  open_tls-IsKeyed File.unreadable s e = cc
  open_tls-IsKeyed File.empty_file s e =
      let same : record { entries = []; saved = [] } ≡ s = cc in
      subst (λ t. IsKeyed t.entries) same (tt, tt)
  open_tls-IsKeyed File.malformed s e = cc
  open_tls-IsKeyed (File.hosts es) s e =
      let same : record { entries = load_hosts ssh es []; saved = es } ≡ s = cc in
      subst (λ t. IsKeyed t.entries) same (load_hosts-IsKeyed es [] (tt, tt))

  tls_save-IsKeyed :
      (works : Bool) (s : TlsStore) → IsKeyed s.entries → IsKeyed (tls_save works s).entries
  tls_save-IsKeyed true s keyed = keyed
  tls_save-IsKeyed false s keyed = keyed

  Made-IsKeyed : (s : TlsStore) → Made s → IsKeyed s.entries
  unfolding tls_add tls_remove save_now
  Made-IsKeyed _ (Made.opened file s e) = open_tls-IsKeyed file s e
  Made-IsKeyed _ (Made.added works s host port none now before) = Made-IsKeyed s before
  Made-IsKeyed _ (Made.added works s host port (some cert) now before) =
      let keyed = Made-IsKeyed s before in
      let e = tls_entry ssh host port cert now in
      tls_save-IsKeyed works (record s { entries = insert (host_key ssh host port) e s.entries })
        (
          insert-IsUnique (host_key ssh host port) e s.entries keyed.0,
          insert-All (host_key ssh host port) e s.entries refl keyed.1,
        )
  Made-IsKeyed _ (Made.removed works s host port before) =
      let keyed = Made-IsKeyed s before in
      let k = host_key ssh host port in
      elim (Bool-cases (has k s.entries)) [
        | inl e ↦
            rw (tls_remove, e)
              (tls_save-IsKeyed works (record s { entries = delete k s.entries })
                (delete-IsUnique k s.entries keyed.0, delete-All k s.entries keyed.1))
        | inr e ↦ rw (tls_remove, e) keyed
      ]
  Made-IsKeyed _ (Made.written works s before) = tls_save-IsKeyed works s (Made-IsKeyed s before)

  verify-same :
      (s t : TlsStore) (host : String) (port : ℕ) (cert : Option Certificate)
      → lookup (host_key ssh host port) t.entries ≡ lookup (host_key ssh host port) s.entries
      → tls_verify ssh t host port cert ≡ tls_verify ssh s host port cert
  unfolding tls_verify
  verify-same s t host port none same = refl
  verify-same s t host port (some cert) same = rw (tls_verify, same) refl

  -- What `Add` and `Remove` write is what they remember: where the file of a store is written, a store
  -- that is opened from that file accepts and refuses the same certificates.
  pub open_tls-tls_verify :
      (s : TlsStore)
      → Made s
      → (t : TlsStore) × (open_tls ssh (File.hosts (tls_save true s).saved) ≡ some t)
        × ((host : String) (port : ℕ) (cert : Option Certificate)
            → tls_verify ssh t host port cert ≡ tls_verify ssh s host port cert)
  unfolding open_tls
  open_tls-tls_verify s made =
      let t : TlsStore = record { entries = load_hosts ssh (tls_list s) []; saved = tls_list s } in
      (
        t,
        refl,
        λ host port cert.
            verify-same s t host port cert
              (reopened (host_key ssh host port) s (Made-IsKeyed s made)),
      )
