-- ===== src/Threads/Deadlocks/Explained.antt =====
-- analyzer.go: where the wait-for edges lead, and the cycles that a walk reports.
use utilities.Base.{
  ◌≡◌, refl, sym, subst, ◌⊎◌, inl, inr, String, true, ◌||◌, none, some, List, [], ◌∷◌, ◌++◌, ◌==◌,
  string_keyed, Dict, lookup, map, arith, Bool-cases,
}
use utilities.Threads.Waits.{Edge}
use utilities.Threads.Deadlocks.{DeadlockCycle, mem, from_name, lock_of, cycle_of}

abbrev pub Next : Dict String Edge → String → String → Type 0
Next wait x y = (e : Edge) × (lookup x wait ≡ some e) × (e.to ≡ y)

abbrev pub head_or : List String → String → String
head_or [] last = last
head_or (x ∷ xs) last = x

-- Each name waits for the next one, and the last one for `last`.
abbrev pub Links : Dict String Edge → List String → String → Type 0
Links wait [] last = Unit
Links wait (x ∷ xs) last = Next wait x (head_or xs last) × Links wait xs last

-- The threads wait for each other in a circle, each one for the lock of its place.
abbrev pub IsCycle : Dict String Edge → DeadlockCycle → Type 0
IsCycle wait c = elim c.threads [
  | [] ↦ ⊥
  | x ∷ xs ↦ Links wait (x ∷ xs) x × (c.locks ≡ map (lock_of wait) (x ∷ xs))
]

abbrev pub OnCycle : String → List DeadlockCycle → Type 0
OnCycle x [] = ⊥
OnCycle x (c ∷ cs) = (mem x c.threads ≡ true) ⊎ OnCycle x cs

-- The chain of waits from a thread ends at one that does not wait, or reaches a reported cycle.
pub data Explained (wait : Dict String Edge) (cycles : List DeadlockCycle) : String → Type 0 where
  free : (x : String) → lookup x wait ≡ none → Explained wait cycles x
  caught : (x : String) → OnCycle x cycles → Explained wait cycles x
  follows : (x y : String) → Next wait x y → Explained wait cycles y → Explained wait cycles x

pub mem-append : (x : String) (xs ys : List String) → mem x (xs ++ ys) ≡ (mem x xs || mem x ys)
mem-append x [] ys = refl
mem-append x (y ∷ xs) ys = ground (arith, mem-append x xs ys)

module _ (wait : Dict String Edge) where
  head_or-snoc : (xs : List String) (cur y : String) → head_or (xs ++ cur ∷ []) y ≡ head_or xs cur
  head_or-snoc [] cur y = refl
  head_or-snoc (x ∷ xs) cur y = refl

  pub Links-snoc :
      (path : List String) (cur y : String)
      → Links wait path cur
      → Next wait cur y
      → Links wait (path ++ cur ∷ []) y
  Links-snoc [] cur y links next = (next, tt)
  Links-snoc (x ∷ xs) cur y links next =
      (rw (head_or-snoc xs cur y) links.0, Links-snoc xs cur y links.1 next)

  pub Links-from_name :
      (path : List String) (cur : String)
      → Links wait path cur
      → mem cur path ≡ true
      → IsCycle wait (cycle_of wait (from_name cur path)) × (mem cur (from_name cur path) ≡ true)
  Links-from_name [] cur links h = cc
  Links-from_name (x ∷ xs) cur links h = elim (Bool-cases (x == cur)) [
    | inl e ↦
        let same : cur ≡ x = sym ((string_keyed.same_iff x cur).0 e) in
        rw (e, from_name) ((subst (λ c. Links wait (x ∷ xs) c) same links, refl), rw e refl)
    | inr e ↦ rw (e, from_name) (Links-from_name xs cur links.1 (rw e at h))
  ]

  pub explain_path :
      (cycles : List DeadlockCycle) (path : List String) (cur : String)
      → Links wait path cur
      → Explained wait cycles cur
      → Explained wait cycles (head_or path cur)
        × ((x : String) → mem x path ≡ true → Explained wait cycles x)
  explain_path cycles [] cur links e = (e, λ x h. cc)
  explain_path cycles (x ∷ xs) cur links e =
      let (first, rest) = explain_path cycles xs cur links.1 e in
      let here = Explained.follows x (head_or xs cur) links.0 first in
      (
        here,
        λ y h. elim (Bool-cases (x == y)) [
          | inl same ↦
              subst (λ z. Explained wait cycles z) ((string_keyed.same_iff x y).0 same) here
          | inr other ↦ rest y (rw other at h)
        ],
      )

  OnCycle-append : (x : String) (cs ds : List DeadlockCycle) → OnCycle x cs → OnCycle x (cs ++ ds)
  OnCycle-append x [] ds h = elim h [ ]
  OnCycle-append x (c ∷ cs) ds (inl h) = inl h
  OnCycle-append x (c ∷ cs) ds (inr h) = inr (OnCycle-append x cs ds h)

  pub OnCycle-snoc :
      (x : String) (cs : List DeadlockCycle) (c : DeadlockCycle)
      → mem x c.threads ≡ true
      → OnCycle x (cs ++ c ∷ [])
  OnCycle-snoc x [] c h = inl h
  OnCycle-snoc x (d ∷ cs) c h = inr (OnCycle-snoc x cs c h)

  pub Explained-append :
      (cs ds : List DeadlockCycle) (x : String) → Explained wait cs x → Explained wait (cs ++ ds) x
  Explained-append cs ds x (Explained.free _ e) = Explained.free x e
  Explained-append cs ds x (Explained.caught _ h) = Explained.caught x (OnCycle-append x cs ds h)
  Explained-append cs ds x (Explained.follows _ y n e) =
      Explained.follows x y n (Explained-append cs ds y e)
