-- ===== src/Threads/Lifelines/Continuity.antt =====
-- session.go: the lifelines of `Lifelines`.
use utilities.Base.{
  ℕ, zero, suc, ◌+◌, ◌≤◌, ◌≡◌, refl, sym, subst, ap, ◌∙◌, inl, inr, String, true, false, Option,
  none, some, List, [], ◌∷◌, ◌++◌, map, ◌==◌, Dict, lookup, lookup-insert, length, length-append,
  snoc-append, set, replicate, Any, Any-sort_by, Any-keep, Any-map, leb, eqb, if◌then◌else◌, arith,
  Bool-cases, Option-cases,
}
use utilities.Threads.Dump.{Thread}
use utilities.Threads.Runs.{next_run, runs, signature_run_max}
use utilities.Threads.Runs.Longest.{IsRun, signature_run_max_lem}
use utilities.Threads.Lifelines.{
  ThreadKey, key_keyed, key_of, ThreadLifeline, stack_sig, new_lifeline, mark_thread, mark_dump,
  mark_dumps, finish_lifeline, lifeline_less, lifelines, frozen_threads,
}

set-append :
    (done rest : List String) (old new : String)
    → set (done ++ old ∷ rest) (length done) new ≡ done ++ new ∷ rest
set-append [] rest old new = refl
set-append (x ∷ done) rest old new = ap (λ l. x ∷ l) (set-append done rest old new)

run_none :
    (n best : ℕ) → (runs (replicate n "") (record { run = 0; best = best; prev = "" })).best ≡ best
unfolding runs next_run
run_none zero best = refl
run_none (suc n) best = run_none n best

Any-lookup :
    (P : ThreadLifeline → Type 0) (k : ThreadKey) (l : ThreadLifeline)
    (idx : Dict ThreadKey ThreadLifeline)
    → lookup k idx ≡ some l
    → P l
    → Any (λ e. P e.1) idx
unfolding lookup
Any-lookup P k l [] e p = cc
Any-lookup P k l ((j, m) ∷ idx) e p = elim (Bool-cases (j == k)) [
  | inl same ↦
      let here : some m ≡ some l = rw same at e in let stored : l ≡ m = cc in inl (subst P stored p)
  | inr other ↦ inr (Any-lookup P k l idx (rw other at e) p)
]

module _ (digest : String → String) (top : ℕ) (k : ThreadKey) where
  -- The signature of a thread in a dump, the last one where the dump has two entries of the thread, or
  -- `old`.
  abbrev pub sig_from : String → List Thread → String
  sig_from old [] = old
  sig_from old (t ∷ ts) =
      let here = sig_from (stack_sig digest t.frames top) ts in
      let others = sig_from old ts in if key_of t == k then here else others

  abbrev pub sig_at : List Thread → String
  sig_at d = sig_from "" d

  -- The signatures of the lifeline that the thread has, or will be given.
  abbrev sigs_of : ℕ → Option ThreadLifeline → List String
  sigs_of count o = elim o [ none ↦ replicate count "" | some l ↦ l.stack_sigs ]

  abbrev KeyIs : Option ThreadLifeline → Type 0
  KeyIs o = elim o [ none ↦ Unit | some l ↦ l.key ≡ k ]

  abbrev marked : ℕ → ℕ → Thread → Option ThreadLifeline → ThreadLifeline
  marked count di t o =
      let l : ThreadLifeline = elim o [ none ↦ new_lifeline count t | some l ↦ l ] in
      record l {
        states = set l.states di (some t.state);
        stack_sigs = set l.stack_sigs di (stack_sig digest t.frames top);
      }

  mark_thread-here :
      (count di : ℕ) (t : Thread) (idx : Dict ThreadKey ThreadLifeline)
      → (key_of t == k) ≡ true
      → lookup k (mark_thread digest count top di t idx) ≡ some (marked count di t (lookup k idx))
  unfolding mark_thread
  mark_thread-here count di t idx e =
      let same : key_of t ≡ k = (key_keyed.same_iff (key_of t) k).0 e in
      lookup-insert (key_of t) k (marked count di t (lookup (key_of t) idx)) idx
      ∙ rw e (ap (λ j. some (marked count di t (lookup j idx))) same)

  mark_thread-other :
      (count di : ℕ) (t : Thread) (idx : Dict ThreadKey ThreadLifeline)
      → (key_of t == k) ≡ false
      → lookup k (mark_thread digest count top di t idx) ≡ lookup k idx
  unfolding mark_thread
  mark_thread-other count di t idx e =
      lookup-insert (key_of t) k (marked count di t (lookup (key_of t) idx)) idx ∙ rw e refl

  marked_sigs :
      (count di : ℕ) (t : Thread) (o : Option ThreadLifeline)
      → (marked count di t o).stack_sigs ≡ set (sigs_of count o) di (stack_sig digest t.frames top)
  unfolding new_lifeline
  marked_sigs count di t none = refl
  marked_sigs count di t (some l) = refl

  marked_key :
      (count di : ℕ) (t : Thread) (o : Option ThreadLifeline)
      → key_of t ≡ k
      → KeyIs o
      → (marked count di t o).key ≡ k
  unfolding new_lifeline
  marked_key count di t none same h = same
  marked_key count di t (some l) same h = h

  -- The index holds the thread's lifeline, with its key and these signatures.
  abbrev Holds : ℕ → Dict ThreadKey ThreadLifeline → List String → Type 0
  Holds count idx sigs = KeyIs (lookup k idx) × (sigs_of count (lookup k idx) ≡ sigs)

  mark_dump-Holds :
      (count : ℕ) (done rest : List String) (ts : List Thread) (old : String)
      (idx : Dict ThreadKey ThreadLifeline)
      → Holds count idx (done ++ old ∷ rest)
      → Holds count
          (mark_dump digest count top (length done) ts idx)
          (done ++ sig_from old ts ∷ rest)
  unfolding mark_dump
  mark_dump-Holds count done rest [] old idx h = h
  mark_dump-Holds count done rest (t ∷ ts) old idx (key, sigs) = elim (Bool-cases (key_of t == k)) [
    | inl e ↦
        let di = length done in
        let same : key_of t ≡ k = (key_keyed.same_iff (key_of t) k).0 e in
        let step = mark_thread-here count di t idx e in
        rw e (
          mark_dump-Holds count done rest ts (stack_sig digest t.frames top)
            (mark_thread digest count top di t idx)
            (
              rw step (marked_key count di t (lookup k idx) same key),
              rw step (
                  marked_sigs count di t (lookup k idx)
                  ∙ ap (λ l. set l di (stack_sig digest t.frames top)) sigs
                  ∙ set-append done rest old (stack_sig digest t.frames top)),
            ))
    | inr e ↦
        let step = mark_thread-other count (length done) t idx e in
        rw e (
          mark_dump-Holds count done rest ts old (mark_thread digest count top (length done) t idx)
            (rw step key, rw step sigs))
  ]

  mark_dumps-Holds :
      (count : ℕ) (done : List String) (ds : List (List Thread))
      (idx : Dict ThreadKey ThreadLifeline)
      → Holds count idx (done ++ replicate (length ds) "")
      → Holds count (mark_dumps digest count top (length done) ds idx) (done ++ map sig_at ds)
  unfolding mark_dumps
  mark_dumps-Holds count done [] idx h = h
  mark_dumps-Holds count done (d ∷ ds) idx h =
      let sig = sig_at d in
      let idx' = mark_dump digest count top (length done) d idx in
      let here = mark_dump-Holds count done (replicate (length ds) "") d "" idx h in
      let longer : length (done ++ sig ∷ []) ≡ length done + 1 =
        omega (arith, length-append done (sig ∷ [])) in
      let rest =
        mark_dumps-Holds count (done ++ sig ∷ []) ds idx'
          (here.0, here.1 ∙ sym (snoc-append done (replicate (length ds) "") sig)) in
      subst (λ n. Holds count (mark_dumps digest count top n ds idx') (done ++ sig ∷ map sig_at ds))
        longer (rest.0, rest.1 ∙ snoc-append done (map sig_at ds) sig)

  empty-Holds : (count : ℕ) → Holds count [] (replicate count "")
  unfolding lookup
  empty-Holds count = (tt, refl)

  none_runs :
      (count n : ℕ) (sigs : List String) → replicate count "" ≡ sigs → 1 ≤ n → IsRun n sigs → ⊥
  unfolding signature_run_max
  none_runs count n sigs same some_dumps run =
      let bound = (signature_run_max_lem sigs).1 n run in
      let empty : signature_run_max sigs ≡ 0 =
        subst (λ l. signature_run_max l ≡ 0) same (run_none count 0) in
      omega arith

-- A lifeline of the thread, with these signatures and a run of `n` dumps.
abbrev pub Reported : ThreadKey → List String → ℕ → ThreadLifeline → Type 0
Reported k sigs n l = (l.key ≡ k) × (l.stack_sigs ≡ sigs) × (n ≤ l.signature_run_max)

finish_lifeline-Reported :
    (k : ThreadKey) (sigs : List String) (n : ℕ) (l : ThreadLifeline)
    → l.key ≡ k
    → l.stack_sigs ≡ sigs
    → IsRun n sigs
    → Reported k sigs n (finish_lifeline l)
finish_lifeline-Reported k sigs n l key same run = (
  key,
  same,
  subst (λ s. n ≤ signature_run_max s) (sym same) ((signature_run_max_lem sigs).1 n run),
)

-- No hang is missed. Where the top of a thread's stack is the same in `min_run` or more dumps in a row,
-- `FrozenThreads` reports the thread, with the signatures that the dumps have of it; the first 8 frames
-- are the top where no other number is given.
pub frozen_threads-Any :
    (digest : String → String) (dumps : List (List Thread)) (min_run top : ℕ) (k : ThreadKey)
    (n : ℕ)
    → 1 ≤ n
    → min_run ≤ n
    → IsRun n (map (sig_at digest (if eqb top 0 then 8 else top) k) dumps)
    → Any
        (Reported k (map (sig_at digest (if eqb top 0 then 8 else top) k) dumps) n)
        (frozen_threads digest dumps min_run top)
unfolding frozen_threads lifelines
frozen_threads-Any digest dumps min_run top k n some_dumps enough run =
    let depth = if eqb top 0 then 8 else top in
    let count = length dumps in
    let idx = mark_dumps digest count depth 0 dumps [] in
    let (key, sigs) =
      mark_dumps-Holds digest depth k count [] dumps [] (empty-Holds digest depth k count) in
    elim (Option-cases (lookup k idx)) [
      | inl e ↦ absurd (
          none_runs digest depth k count n (map (sig_at digest depth k) dumps) (rw e at sigs)
            some_dumps run)
      | inr (l, e) ↦
          let wanted = Reported k (map (sig_at digest depth k) dumps) n in
          let report =
            finish_lifeline-Reported k (map (sig_at digest depth k) dumps) n l (rw e at key)
              (rw e at sigs) run in
          Any-keep wanted (λ m. leb min_run m.signature_run_max) (lifelines digest dumps top)
            (λ m p. let long = p.2 in ground arith)
            (Any-sort_by wanted lifeline_less (map (λ e. finish_lifeline e.1) idx) (
              Any-map wanted (λ e. finish_lifeline e.1) idx
                (Any-lookup (λ m. wanted (finish_lifeline m)) k l idx e report)))
    ]
