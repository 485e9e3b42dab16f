-- ===== src/Runner/Pool/Around.antt =====
-- runner.go: what the loop around the slots of a pool finds.
use native.Mathlib.Nat.{mod-lt, mod-eq_of_lt, mod-add-mod, add-mod_right}
use utilities.Base.{
  ℕ, zero, suc, ◌+◌, ◌-◌, ◌%◌, ◌<◌, ◌≡◌, refl, sym, subst, ◌∙◌, ◌⊎◌, inl, inr, String, Option, none,
  some, List, [], ◌∷◌, length, get_elem?, get_elem?_of_lt, leb, arith, Bool-cases, Option-cases,
  Sum-cases,
}
use utilities.Runner.Pool.{slot_get, get_loop, pool_get}

reduce : (n i j : ℕ) → (i + j) % n ≡ (i % n + j) % n
reduce n i j = sym (mod-add-mod i n j)

-- From any place on, as many steps as there are places come by every place.
reach_all : (n i m : ℕ) → m < n → (j : ℕ) × (j < n) × ((i + j) % n ≡ m)
reach_all n i m inside =
    let r = i % n in
    let small : r < n = mod-lt i (omega arith) in
    elim (Bool-cases (leb r m)) [
      | inl e ↦ (
        m - r,
        ground arith,
        reduce n i (m - r) ∙ subst (λ k. k % n ≡ m) (ground arith) (mod-eq_of_lt inside),
      )
      | inr e ↦ (
        m + n - r,
        ground arith,
        reduce n i (m + n - r)
            ∙ subst (λ k. k % n ≡ m) (ground arith) (add-mod_right m n ∙ mod-eq_of_lt inside),
      )
    ]

module _ {Conn : Type 0} (dial : ℕ → String ⊎ Conn) where
  slot_get-inl :
      (slots : List (Option Conn)) (i : ℕ) (e : String)
      → (slot_get dial slots i).0 ≡ inl e
      → (slot_get dial slots i).1 ≡ slots
  unfolding slot_get
  slot_get-inl slots i e failed = elim (Option-cases (get_elem? slots i)) [
    | inl out ↦ rw (out, slot_get) refl
    | inr (none, there) ↦ elim (Sum-cases (dial i)) [
      | inl (f, bad) ↦ rw (there, slot_get, bad) refl
      | inr (c, ok) ↦ let found = rw (slot_get, there, ok) at failed in cc
    ]
    | inr (some c, there) ↦ let found = rw (slot_get, there) at failed in cc
  ]

  -- A slot that fails has no client and cannot be dialled.
  slot_get-dead :
      (slots : List (Option Conn)) (i : ℕ) (e : String)
      → i < length slots
      → (slot_get dial slots i).0 ≡ inl e
      → (get_elem? slots i ≡ some none) × (dial i ≡ inl e)
  unfolding slot_get
  slot_get-dead slots i e inside failed = elim (Option-cases (get_elem? slots i)) [
    | inl out ↦
        let (client, there) = get_elem?_of_lt slots i inside in let nobody = sym out ∙ there in cc
    | inr (some c, there) ↦ let found = rw (slot_get, there) at failed in cc
    | inr (none, there) ↦ elim (Sum-cases (dial i)) [
      | inr (c, ok) ↦ let found = rw (slot_get, there, ok) at failed in cc
      | inl (f, bad) ↦ let found = rw (slot_get, there, bad) at failed in (there, bad ∙ found)
    ]
  ]

  get_loop-inl :
      (attempts place : ℕ) (first : Option String) (slots : List (Option Conn)) (e : Option String)
      → (get_loop dial attempts place first slots).0 ≡ inl e
      → (j : ℕ) → j < attempts
      → (f : String) × ((slot_get dial slots ((place + j) % length slots)).0 ≡ inl f)
  unfolding get_loop
  get_loop-inl zero place first slots e failed j within = absurd (omega arith)
  get_loop-inl (suc attempts) place first slots e failed j within =
      let i = place % length slots in
      elim (Sum-cases (slot_get dial slots i).0) [
        | inr (c, ok) ↦ let found = rw (get_loop, ok) at failed in cc
        | inl (f, bad) ↦
            let same = slot_get-inl slots i f bad in
            let rest = rw (get_loop, bad, same) at failed in
            elim j
                as (λ j.
                  j < suc attempts
                  → (f : String) × ((slot_get dial slots ((place + j) % length slots)).0 ≡ inl f)) [
                    | zero ↦ λ w.
                        let here : place ≡ place + 0 = omega arith in
                        (
                          f,
                          subst (λ k. (slot_get dial slots (k % length slots)).0 ≡ inl f) here bad,
                        )
                    | suc k ↦ λ w.
                        let there : place + 1 + k ≡ place + suc k = omega arith in
                        let (g, worse) =
                          get_loop-inl attempts (place + 1)
                            (elim first [ none ↦ some f | some h ↦ some h ]) slots e rest k
                            (omega arith) in
                        (
                          g,
                          subst (λ m. (slot_get dial slots (m % length slots)).0 ≡ inl g) there
                              worse,
                        )
                  ]
              within
      ]

  -- A dead connection does not stall its user: a pool fails to give a client only where each of its slots
  -- has no client and cannot be dialled.
  pub pool_get-inl :
      (slots : List (Option Conn)) (idx : ℕ) (e : Option String)
      → (pool_get dial slots idx).0 ≡ inl e
      → (i : ℕ) → i < length slots
      → (f : String) × (get_elem? slots i ≡ some none) × (dial i ≡ inl f)
  unfolding pool_get
  pool_get-inl [] idx e failed i inside = absurd (omega arith)
  pool_get-inl (s ∷ rest) idx e failed i inside =
      let slots = s ∷ rest in
      let (j, within, place) = reach_all (length slots) idx i inside in
      let (f, bad) = get_loop-inl (length slots) idx none slots e failed j within in
      let (dead, undialled) =
        slot_get-dead slots i f inside (subst (λ k. (slot_get dial slots k).0 ≡ inl f) place bad) in
      (f, dead, undialled)
