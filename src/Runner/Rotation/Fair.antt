-- ===== src/Runner/Rotation/Fair.antt =====
-- runner.go: successive calls of nextPattern for one kind and user.
use utilities.Base.{
  ℕ, zero, suc, ◌+◌, ◌%◌, ◌^◌, ◌≤◌, ◌<◌, ◌≡◌, refl, ap, ◌∙◌, subst, String, Option, none, some,
  List, [], ◌∷◌, Dict, lookup, insert, lookup-insert, same_refl, string_keyed, length, get_elem?,
  get_elem?_of_lt, arith,
}
use utilities.Runner.Rotation.{UserCreds, cursor_key, cursor_at, next_pattern, u64}

-- The cursors after `c` calls for one kind and user, from cursors that name neither.
unfoldable pub after_calls : ℕ → String → UserCreds → Dict String ℕ → Option (Dict String ℕ)
after_calls zero kind u cursors = some cursors
after_calls (suc c) kind u cursors = elim (after_calls c kind u cursors) [
  | none ↦ none
  | some before ↦ elim (next_pattern before kind u) [ none ↦ none | some r ↦ some r.0 ]
]

two_or_more :
    (ps : List String) → 2 ≤ length ps → (p q : String) × (rest : List String) × (ps ≡ p ∷ q ∷ rest)
two_or_more [] h = absurd (omega arith)
two_or_more (p ∷ []) h = absurd (omega arith)
two_or_more (p ∷ q ∷ ps) h = (p, q, ps, refl)

next_pattern-many :
    (cursors : Dict String ℕ) (kind : String) (u : UserCreds) (p q : String) (ps : List String)
    (chosen : String)
    → let c = cursor_at cursors (cursor_key kind u.username) in
      u.patterns ≡ p ∷ q ∷ ps
      → get_elem? (p ∷ q ∷ ps) (c % length (p ∷ q ∷ ps)) ≡ some chosen
      → next_pattern cursors kind u
        ≡ some (insert (cursor_key kind u.username) (u64 (c + 1)) cursors, chosen)
unfolding next_pattern
next_pattern-many cursors kind u p q ps chosen shape e = rw (next_pattern, shape, e) refl

next_pattern-Turn :
    (cursors : Dict String ℕ) (kind : String) (u : UserCreds)
    → 2 ≤ length u.patterns
    → let c = cursor_at cursors (cursor_key kind u.username) in
      c + 1 < 2 ^ 64
      → (after : Dict String ℕ) × (p : String) × (next_pattern cursors kind u ≡ some (after, p))
        × (get_elem? u.patterns (c % length u.patterns) ≡ some p)
        × (cursor_at after (cursor_key kind u.username) ≡ c + 1)
next_pattern-Turn cursors kind u two small =
    let key = cursor_key kind u.username in
    let c = cursor_at cursors key in
    let (p, q, ps, shape) = two_or_more u.patterns two in
    let (chosen, e) = get_elem?_of_lt u.patterns (c % length u.patterns) (omega arith) in
    let moved : lookup key (insert key (u64 (c + 1)) cursors) ≡ some (u64 (c + 1)) =
      rw (lookup-insert key key (u64 (c + 1)) cursors, same_refl key) refl in
    (
      insert key (u64 (c + 1)) cursors,
      chosen,
      next_pattern-many cursors kind u p q ps chosen shape
          (subst (λ l. get_elem? l (c % length l) ≡ some chosen) shape e),
      e,
      ap (λ o. elim o [ none ↦ 0 | some n ↦ n ]) moved ∙ omega arith,
    )

after_calls-cursor :
    (c : ℕ) (cursors : Dict String ℕ) (kind : String) (u : UserCreds)
    → 2 ≤ length u.patterns
    → c < 2 ^ 64
    → lookup (cursor_key kind u.username) cursors ≡ none
    → (after : Dict String ℕ) × (after_calls c kind u cursors ≡ some after)
      × (cursor_at after (cursor_key kind u.username) ≡ c)
unfolding after_calls
after_calls-cursor zero cursors kind u two small new = (cursors, refl, rw (new, cursor_at) refl)
after_calls-cursor (suc c) cursors kind u two small new =
    let (before, e, at) = after_calls-cursor c cursors kind u two (omega arith) new in
    let (after, p, next, turn, moved) = next_pattern-Turn before kind u two (omega arith) in
    (after, rw (e, after_calls, next) refl, moved ∙ omega arith)

-- With at least two patterns, and before the cursor wraps round, the call number `c` (from 0) for a
-- kind and a user gives the pattern at `c` modulo their number: the patterns come one after the
-- other, round the list.
pub next_pattern-Rotates :
    (c : ℕ) (cursors : Dict String ℕ) (kind : String) (u : UserCreds)
    → 2 ≤ length u.patterns
    → c + 1 < 2 ^ 64
    → lookup (cursor_key kind u.username) cursors ≡ none
    → (before after : Dict String ℕ) × (p : String) × (after_calls c kind u cursors ≡ some before)
      × (next_pattern before kind u ≡ some (after, p))
      × (get_elem? u.patterns (c % length u.patterns) ≡ some p)
next_pattern-Rotates c cursors kind u two small new =
    let (before, e, at) = after_calls-cursor c cursors kind u two (omega arith) new in
    let (after, p, next, turn, moved) = next_pattern-Turn before kind u two (omega arith) in
    (
      before,
      after,
      p,
      e,
      next,
      subst (λ n. get_elem? u.patterns (n % length u.patterns) ≡ some p) at turn,
    )
