-- ===== src/Runner/Rotation/Active.antt =====
-- runner.go: whom pickActiveUser picks.

use utilities.Base.{
  ℕ, zero, suc, ◌+◌, ◌%◌, ◌^◌, ◌<◌, ◌≡◌, refl, ◌⊎◌, true, false, Option, none, some, List, length,
  get_elem?, get_elem?_of_lt, arith, Bool-cases, inl, inr,
}
use utilities.Runner.Disable.{DisablePolicy}
use utilities.Runner.Rotation.{UserCreds, is_active, pick_from, pick_active_user, u64}

-- The users at `n` positions from the cursor on, round the list, are all retired.
abbrev pub AllRetired : ℕ → List UserCreds → ℕ → Option DisablePolicy → Type 0
AllRetired n users i disable =
    (k : ℕ) (u : UserCreds)
    → k < n
    → get_elem? users ((i + k) % length users) ≡ some u
    → is_active disable u ≡ false

-- The pick is the first active user from the cursor on, and the cursor moves behind it.
abbrev pub Picks : ℕ → List UserCreds → ℕ → Option DisablePolicy → Option UserCreds × ℕ → Type 0
Picks n users i disable r =
    (k : ℕ) × (u : UserCreds) × (k < n)
    × (r ≡ (some u, i + k + 1))
    × (get_elem? users ((i + k) % length users) ≡ some u)
    × (is_active disable u ≡ true)
    × AllRetired k users i disable

AllRetired-suc :
    (n : ℕ) (users : List UserCreds) (i : ℕ) (disable : Option DisablePolicy) (u : UserCreds)
    → get_elem? users (i % length users) ≡ some u
    → is_active disable u ≡ false
    → AllRetired n users (i + 1) disable
    → AllRetired (suc n) users i disable
AllRetired-suc n users i disable u e off rest zero v h at =
    let same : i + 0 ≡ i = omega arith in ground (arith, rw same at at)
AllRetired-suc n users i disable u e off rest (suc k) v h at =
    let same : i + suc k ≡ i + 1 + k = omega arith in rest k v (omega arith) (rw same at at)

abbrev Decides : ℕ → List UserCreds → ℕ → Option DisablePolicy → Type 0
Decides n users i disable =
    Picks n users i disable (pick_from n users i disable)
    ⊎ ((pick_from n users i disable).0 ≡ none) × AllRetired n users i disable

Decides-suc :
    (n : ℕ) (users : List UserCreds) (i : ℕ) (disable : Option DisablePolicy) (u : UserCreds)
    → i + suc n < 2 ^ 64
    → get_elem? users (i % length users) ≡ some u
    → Decides n users (i + 1) disable
    → Decides (suc n) users i disable
unfolding pick_from
Decides-suc n users i disable u small e rest =
    let wrap : u64 (i + 1) ≡ i + 1 = omega arith in
    elim (Bool-cases (is_active disable u)) [
      | inl on ↦
          let same : i + 0 ≡ i = omega arith in
          inl (
            0,
            u,
            omega arith,
            rw (e, pick_from, on, wrap, same) refl,
            rw same e,
            on,
            λ k v lt. absurd (omega arith),
          )
      | inr off ↦ elim rest [
        | inl (k, v, lt, r, at, on, before) ↦
            let place : i + suc k ≡ i + 1 + k = omega arith in
            inl (
              suc k,
              v,
              omega arith,
              rw (e, pick_from, off, wrap, r, place) refl,
              rw place at,
              on,
              AllRetired-suc k users i disable u e off before,
            )
        | inr (r, all) ↦
            inr (rw (e, pick_from, off, wrap) r, AllRetired-suc n users i disable u e off all)
      ]
    ]

pick_from-Decides :
    (n : ℕ) (users : List UserCreds) (i : ℕ) (disable : Option DisablePolicy)
    → 0 < length users
    → i + n < 2 ^ 64
    → Decides n users i disable
unfolding pick_from
pick_from-Decides zero users i disable h small = inr (refl, λ k u lt. absurd (omega arith))
pick_from-Decides (suc n) users i disable h small =
    let (u, e) = get_elem?_of_lt users (i % length users) (omega arith) in
    Decides-suc n users i disable u small e
      (pick_from-Decides n users (i + 1) disable h (omega arith))

-- Among some users, and with a cursor that does not wrap round, `pickActiveUser` picks the first
-- active user from the cursor on and moves the cursor right behind it, or it picks nobody, and then
-- every user is retired.
pub pick_active_user-Decides :
    (users : List UserCreds) (i : ℕ) (disable : Option DisablePolicy)
    → 0 < length users
    → i + length users < 2 ^ 64
    → Picks (length users) users i disable (pick_active_user users i disable)
      ⊎ ((pick_active_user users i disable).0 ≡ none) × AllRetired (length users) users i disable
unfolding pick_active_user
pick_active_user-Decides users i disable h small =
    pick_from-Decides (length users) users i disable h small
