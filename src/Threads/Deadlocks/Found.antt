-- ===== src/Threads/Deadlocks/Found.antt =====
-- analyzer.go: the walks of `Deadlocks`.
use utilities.Base.{
  ℕ, zero, suc, ◌+◌, ◌<◌, ◌≡◌, refl, subst, inl, inr, String, true, Option, some, List, [], ◌∷◌,
  ◌++◌, ◌==◌, string_keyed, Dict, lookup, length, All, arith, Bool-cases, Option-cases,
}
use utilities.Threads.Waits.{Edge}
use utilities.Threads.Deadlocks.{
  DeadlockCycle, Search, mem, from_name, cycle_of, walk, search_from, names_of, find_cycles,
}
use utilities.Threads.Deadlocks.Marks.{
  fresh, fresh-lt, fresh_none, mem_of_lookup, mem-keep, mem-left, mem-right, mem-more,
  lookup_or_mem, names_length,
}
use utilities.Threads.Deadlocks.Explained.{
  Next, Links, IsCycle, Explained, mem-append, Links-snoc, Links-from_name, explain_path,
  OnCycle-snoc, Explained-append,
}

-- The cycles are cycles, and every thread that is done is explained.
abbrev IsSound : Dict String Edge → Search → Type 0
IsSound wait s =
    All (IsCycle wait) s.cycles × ((x : String) → mem x s.done ≡ true → Explained wait s.cycles x)

abbrev Finished : Dict String Edge → Search → List String → Option Search → Type 0
Finished wait s names result =
    (after : Search) × (result ≡ some after)
    × IsSound wait after
    × ((x : String) → mem x (names ++ s.done) ≡ true → mem x after.done ≡ true)

All-snoc :
    (wait : Dict String Edge) (cs : List DeadlockCycle) (c : DeadlockCycle)
    → All (IsCycle wait) cs
    → IsCycle wait c
    → All (IsCycle wait) (cs ++ c ∷ [])
All-snoc wait [] c all h = (h, tt)
All-snoc wait (d ∷ cs) c all h = (all.0, All-snoc wait cs c all.1 h)

-- The names of a path, with what was done.
IsSound-done :
    (wait : Dict String Edge) (cycles : List DeadlockCycle) (names done : List String)
    → ((x : String) → mem x names ≡ true → Explained wait cycles x)
    → ((x : String) → mem x done ≡ true → Explained wait cycles x)
    → (x : String) → mem x (names ++ done) ≡ true
    → Explained wait cycles x
IsSound-done wait cycles names done new old x h = elim (Bool-cases (mem x names)) [
  | inl e ↦ new x e
  | inr e ↦ old x (ground (arith, mem-append x names done))
]

Explained-snoc :
    (wait : Dict String Edge) (cycles : List DeadlockCycle) (path : List String) (cur : String)
    → ((x : String) → mem x path ≡ true → Explained wait cycles x)
    → Explained wait cycles cur
    → (x : String) → mem x (path ++ cur ∷ []) ≡ true
    → Explained wait cycles x
Explained-snoc wait cycles path cur all last x h = elim (Bool-cases (mem x path)) [
  | inl e ↦ all x e
  | inr e ↦
      let same : cur ≡ x =
        (string_keyed.same_iff cur x).0 (ground (arith, mem-append x path (cur ∷ []))) in
      subst (λ z. Explained wait cycles z) same last
]

walk-Finished :
    (fuel : ℕ) (wait : Dict String Edge) (s : Search) (path : List String) (cur : String)
    → IsSound wait s
    → Links wait path cur
    → fresh (names_of wait) path < fuel
    → Finished wait s (path ++ cur ∷ []) (walk fuel wait s path cur)
unfolding walk
walk-Finished zero wait s path cur sound links enough = absurd (omega arith)
walk-Finished (suc fuel) wait s path cur sound links enough = elim (Bool-cases (mem cur path)) [
  | inl found ↦
      let (cycle, on) = Links-from_name wait path cur links found in
      let c = cycle_of wait (from_name cur path) in
      let cycles = s.cycles ++ c ∷ [] in
      let caught = Explained.caught cur (OnCycle-snoc wait cur s.cycles c on) in
      let (first, new) = explain_path wait cycles path cur links caught in
      rw (found, walk)
        (
          record { done = path ++ s.done; cycles = cycles },
          refl,
          (
            All-snoc wait s.cycles c sound.0 cycle,
            IsSound-done wait cycles path s.done new
                (λ x h. Explained-append wait s.cycles (c ∷ []) x (sound.1 x h)),
          ),
          λ x h. mem-keep x path s.done cur (mem-left cur path s.done found) h,
        )
  | inr off ↦ elim (Bool-cases (mem cur s.done)) [
    | inl old ↦
        let (first, new) = explain_path wait s.cycles path cur links (sound.1 cur old) in
        rw (off, walk, old)
          (
            record s { done = path ++ s.done },
            refl,
            (sound.0, IsSound-done wait s.cycles path s.done new sound.1),
            λ x h. mem-keep x path s.done cur (mem-right cur path s.done old) h,
          )
    | inr fresh_name ↦ elim (Option-cases (lookup cur wait)) [
      | inl e ↦
          let (first, new) = explain_path wait s.cycles path cur links (Explained.free cur e) in
          rw (off, walk, fresh_name, e)
            (
              record s { done = (path ++ cur ∷ []) ++ s.done },
              refl,
              (
                sound.0,
                IsSound-done wait s.cycles (path ++ cur ∷ []) s.done
                    (Explained-snoc wait s.cycles path cur new (Explained.free cur e)) sound.1,
              ),
              λ x h. h,
            )
      | inr (e, known) ↦
          let next : Next wait cur e.to = (e, known, refl) in
          let (after, r, good, kept) =
            walk-Finished fuel wait s (path ++ cur ∷ []) e.to sound
              (Links-snoc wait path cur e.to links next)
              (omega
                (arith, fresh-lt (names_of wait) path cur (mem_of_lookup wait cur e known) off)) in
          rw (off, walk, fresh_name, known)
            (after, r, good, λ x h. kept x (mem-more x (path ++ cur ∷ []) (e.to ∷ []) s.done h))
    ]
  ]
]

-- Every name to start at, and every name that was done before, is done.
search_from-Finished :
    (fuel : ℕ) (wait : Dict String Edge) (starts : List String) (s : Search)
    → IsSound wait s
    → length (names_of wait) < fuel
    → Finished wait s starts (search_from fuel wait starts s)
unfolding search_from
search_from-Finished fuel wait [] s sound enough = (s, refl, sound, λ x h. h)
search_from-Finished fuel wait (start ∷ starts) s sound enough =
    elim (Bool-cases (mem start s.done)) [
      | inl old ↦
          let (after, r, good, kept) = search_from-Finished fuel wait starts s sound enough in
          rw (old, search_from)
            (
              after,
              r,
              good,
              λ x h. elim (Bool-cases (start == x)) [
                | inl e ↦ kept x (
                    mem-right x starts s.done
                      (subst (λ z. mem z s.done ≡ true) ((string_keyed.same_iff start x).0 e) old))
                | inr e ↦ kept x (rw e at h)
              ],
            )
      | inr new ↦
          let (mid, r, good, kept) =
            walk-Finished fuel wait s [] start sound tt (rw (fresh_none (names_of wait)) enough) in
          let (after, r', good', kept') = search_from-Finished fuel wait starts mid good enough in
          rw (new, search_from, r)
            (
              after,
              r',
              good',
              λ x h. elim (Bool-cases (mem x starts)) [
                | inl e ↦ kept' x (mem-left x starts mid.done e)
                | inr e ↦ kept' x (
                    mem-right x starts mid.done
                      (kept x (ground (arith, mem-append x starts s.done))))
              ],
            )
    ]

-- Of any wait-for graph the search ends within its fuel. Each cycle that it reports is one: its threads
-- wait for each other in a circle, each for the lock at its place. And none is missed: from every thread
-- the chain of waits ends at a thread that does not wait, or leads into a reported cycle.
pub find_cycles-Explained :
    (wait : Dict String Edge)
    → (s : Search) × (find_cycles wait ≡ some s)
      × All (IsCycle wait) s.cycles
      × ((x : String) → Explained wait s.cycles x)
unfolding find_cycles
find_cycles-Explained wait =
    let (s, r, sound, all) =
      search_from-Finished (length wait + 1) wait (names_of wait)
        (record { done = []; cycles = [] }) (tt, λ x h. cc) (omega (arith, names_length wait)) in
    (
      s,
      r,
      sound.0,
      λ x. elim (lookup_or_mem wait x) [
        | inl e ↦ Explained.free x e
        | inr e ↦ sound.1 x (all x (mem-left x (names_of wait) [] e))
      ],
    )
