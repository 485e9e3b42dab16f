-- ===== src/Threads/Deadlocks/Marks.antt =====
-- analyzer.go: the marks of the search of `Deadlocks`.
use utilities.Base.{
  ℕ, suc, ◌+◌, ◌≤◌, ◌<◌, ◌≡◌, refl, subst, ap, ◌⊎◌, inl, inr, String, true, false, none, some, List,
  [], ◌∷◌, ◌++◌, ◌==◌, string_keyed, Dict, lookup, length, if◌then◌else◌, arith, Bool-cases,
  Option-cases,
}
use utilities.Threads.Waits.{Edge}
use utilities.Threads.Deadlocks.{mem, names_of}
use utilities.Threads.Deadlocks.Explained.{mem-append}

-- The waiting threads that are not on the path.
abbrev pub fresh : List String → List String → ℕ
fresh [] path = 0
fresh (k ∷ ks) path = (if mem k path then 0 else 1) + fresh ks path

fresh-le : (ks path : List String) (cur : String) → fresh ks (path ++ cur ∷ []) ≤ fresh ks path
fresh-le [] path cur = omega arith
fresh-le (k ∷ ks) path cur = ground (arith, fresh-le ks path cur, mem-append k path (cur ∷ []))

pub fresh-lt :
    (ks path : List String) (cur : String)
    → mem cur ks ≡ true
    → mem cur path ≡ false
    → fresh ks (path ++ cur ∷ []) < fresh ks path
fresh-lt [] path cur h new = cc
fresh-lt (k ∷ ks) path cur h new = elim (Bool-cases (k == cur)) [
  | inl e ↦
      let same : k ≡ cur = (string_keyed.same_iff k cur).0 e in
      let gone : mem k path ≡ false = rw same new in
      let on : mem k (path ++ cur ∷ []) ≡ true =
        ground (arith, mem-append k path (cur ∷ []), string_keyed.same_iff cur k) in
      let rest = fresh-le ks path cur in rw (gone, on) (omega arith)
  | inr e ↦
      let later : mem cur ks ≡ true = rw e at h in
      let rest = fresh-lt ks path cur later new in ground (arith, mem-append k path (cur ∷ []))
]

pub fresh_none : (ks : List String) → fresh ks [] ≡ length ks
fresh_none [] = refl
fresh_none (k ∷ ks) = omega (arith, fresh_none ks)

pub mem_of_lookup :
    (wait : Dict String Edge) (cur : String) (e : Edge)
    → lookup cur wait ≡ some e
    → mem cur (names_of wait) ≡ true
unfolding lookup
mem_of_lookup [] cur e h = cc
mem_of_lookup ((k, f) ∷ wait) cur e h = ground (arith, mem_of_lookup wait cur e)

-- What a name on a path that grew by one name is.
mem-grown :
    (x : String) (path done : List String) (cur : String)
    → mem x ((path ++ cur ∷ []) ++ done) ≡ true
    → (cur ≡ x) ⊎ (mem x (path ++ done) ≡ true)
mem-grown x path done cur h = elim (Bool-cases (cur == x)) [
  | inl e ↦ inl ((string_keyed.same_iff cur x).0 e)
  | inr e ↦ inr (
      ground (
        arith,
        mem-append x (path ++ cur ∷ []) done,
        mem-append x path (cur ∷ []),
        mem-append x path done,
      ))
]

pub mem-keep :
    (x : String) (path done : List String) (cur : String)
    → mem cur (path ++ done) ≡ true
    → mem x ((path ++ cur ∷ []) ++ done) ≡ true
    → mem x (path ++ done) ≡ true
mem-keep x path done cur known h = elim (mem-grown x path done cur h) [
  | inl same ↦ subst (λ z. mem z (path ++ done) ≡ true) same known
  | inr there ↦ there
]

pub mem-left : (x : String) (xs ys : List String) → mem x xs ≡ true → mem x (xs ++ ys) ≡ true
mem-left x xs ys h = ground (arith, mem-append x xs ys)

pub mem-right : (x : String) (xs ys : List String) → mem x ys ≡ true → mem x (xs ++ ys) ≡ true
mem-right x xs ys h = ground (arith, mem-append x xs ys)

pub mem-more :
    (x : String) (xs ys zs : List String)
    → mem x (xs ++ zs) ≡ true
    → mem x ((xs ++ ys) ++ zs) ≡ true
mem-more x xs ys zs h =
    ground (arith, mem-append x xs ys, mem-append x (xs ++ ys) zs, mem-append x xs zs)

pub lookup_or_mem :
    (wait : Dict String Edge) (x : String) → (lookup x wait ≡ none) ⊎ (mem x (names_of wait) ≡ true)
lookup_or_mem wait x = elim (Option-cases (lookup x wait)) [
  | inl e ↦ inl e
  | inr (e, known) ↦ inr (mem_of_lookup wait x e known)
]

pub names_length : (wait : Dict String Edge) → length (names_of wait) ≡ length wait
names_length [] = refl
names_length (e ∷ wait) = ap suc (names_length wait)
