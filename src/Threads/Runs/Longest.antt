-- ===== src/Threads/Runs/Longest.antt =====
-- session.go: the run lengths.
use utilities.Base.{
  ℕ, zero, suc, ◌+◌, ◌≤◌, ◌≡◌, refl, sym, subst, ap, ◌∙◌, ◌⊎◌, inl, inr, ◌≢◌, String, true, false,
  List, [], ◌∷◌, ◌++◌, ◌==◌, string_keyed, same_refl, append_assoc, replicate, ltb, if◌then◌else◌,
  arith, Bool-cases,
}
use utilities.Threads.Runs.{Run, next_run, runs, signature_run_max}

-- `n` dumps in a row with one and the same stack.
abbrev pub IsRun : ℕ → List String → Type 0
IsRun n sigs =
    (before : List String) × (sig : String) × (after : List String) × (sig ≢ "")
    × (sigs ≡ before ++ (replicate n sig ++ after))

step-empty : (r : Run) → next_run "" r ≡ record r { run = 0; prev = "" }
unfolding next_run
step-empty r = refl

step-same :
    (sig : String) (r : Run)
    → (sig == "") ≡ false
    → (sig == r.prev) ≡ true
    → next_run sig r ≡ record {
      run = r.run + 1;
      best = if ltb r.best (r.run + 1) then r.run + 1 else r.best;
      prev = sig;
    }
unfolding next_run
step-same sig r e f = rw (e, f) refl

step-other :
    (sig : String) (r : Run)
    → (sig == "") ≡ false
    → (sig == r.prev) ≡ false
    → next_run sig r ≡ record { run = 1; best = if ltb r.best 1 then 1 else r.best; prev = sig }
unfolding next_run
step-other sig r e f = rw (e, f) refl

different : (sig other : String) → sig ≢ other → (sig == other) ≡ false
different sig other ne = elim (Bool-cases (sig == other)) [
  | inl e ↦ absurd (ne ((string_keyed.same_iff sig other).0 e))
  | inr e ↦ e
]

next_run-best-le : (sig : String) (r : Run) → r.best ≤ (next_run sig r).best
unfolding next_run
next_run-best-le sig r = elim (Bool-cases (sig == "")) [
  | inl e ↦ rw e (omega arith)
  | inr e ↦ elim (Bool-cases (sig == r.prev)) [
    | inl f ↦ rw (e, f) (ground arith)
    | inr f ↦ rw (e, f) (ground arith)
  ]
]

best-le : (sigs : List String) (r : Run) → r.best ≤ (runs sigs r).best
unfolding runs
best-le [] r = omega arith
best-le (sig ∷ sigs) r =
    let step = next_run-best-le sig r in let rest = best-le sigs (next_run sig r) in omega arith

-- A run that goes on.
runs-replicate-le :
    (n : ℕ) (sig : String) (after : List String) (r : Run)
    → sig ≢ ""
    → r.prev ≡ sig
    → r.run ≤ r.best
    → r.run + n ≤ (runs (replicate n sig ++ after) r).best
unfolding runs
runs-replicate-le zero sig after r ne same le = let rest = best-le after r in omega arith
runs-replicate-le (suc n) sig after r ne same le =
    let e = different sig "" ne in
    let f : (sig == r.prev) ≡ true = rw same (same_refl sig) in
    rw (runs, step-same sig r e f)
      (ground (
        arith,
        runs-replicate-le n sig after
            (record {
              run = r.run + 1;
              best = if ltb r.best (r.run + 1) then r.run + 1 else r.best;
              prev = sig;
            })
            ne refl (ground arith),
      ))

runs-replicate :
    (n : ℕ) (sig : String) (after : List String) (r : Run)
    → sig ≢ ""
    → r.run ≤ r.best
    → n ≤ (runs (replicate n sig ++ after) r).best
unfolding runs
runs-replicate zero sig after r ne le = omega arith
runs-replicate (suc n) sig after r ne le = elim (Bool-cases (sig == r.prev)) [
  | inl f ↦
      let rest =
        runs-replicate-le (suc n) sig after r ne (sym ((string_keyed.same_iff sig r.prev).0 f))
          le in
      omega arith
  | inr f ↦
      rw (runs, step-other sig r (different sig "" ne) f)
        (ground (
          arith,
          runs-replicate-le n sig after
              (record { run = 1; best = if ltb r.best 1 then 1 else r.best; prev = sig }) ne refl
              (ground arith),
        ))
]

next_run-run-le :
    (sig : String) (r : Run) → r.run ≤ r.best → (next_run sig r).run ≤ (next_run sig r).best
unfolding next_run
next_run-run-le sig r le = elim (Bool-cases (sig == "")) [
  | inl e ↦ rw e (omega arith)
  | inr e ↦ elim (Bool-cases (sig == r.prev)) [
    | inl f ↦ rw (e, f) (ground arith)
    | inr f ↦ rw (e, f) (ground arith)
  ]
]

-- No run is longer than the best one.
runs-bound :
    (before : List String) (n : ℕ) (sig : String) (after : List String) (r : Run)
    → sig ≢ ""
    → r.run ≤ r.best
    → n ≤ (runs (before ++ (replicate n sig ++ after)) r).best
unfolding runs
runs-bound [] n sig after r ne le = runs-replicate n sig after r ne le
runs-bound (x ∷ before) n sig after r ne le =
    runs-bound before n sig after (next_run x r) ne (next_run-run-le x r le)

-- The best of a loop is what it was, or the length of a run of what was read and is to be read.
abbrev Reached : ℕ → Run → List String → Type 0
Reached n r sigs = (n ≡ r.best) ⊎ IsRun n (replicate r.run r.prev ++ sigs)

replicate_snoc :
    (n : ℕ) (sig : String) (sigs : List String)
    → replicate n sig ++ sig ∷ sigs ≡ replicate (suc n) sig ++ sigs
replicate_snoc zero sig sigs = refl
replicate_snoc (suc n) sig sigs = ap (λ l. sig ∷ l) (replicate_snoc n sig sigs)

add_one : (n : ℕ) → n + 1 ≡ suc n
add_one n = omega arith

IsRun-before : (n : ℕ) (before sigs : List String) → IsRun n sigs → IsRun n (before ++ sigs)
IsRun-before n before sigs (pre, sig, after, ne, e) = (
  before ++ pre,
  sig,
  after,
  ne,
  ap (λ l. before ++ l) e ∙ sym (append_assoc before pre (replicate n sig ++ after)),
)

IsRun-first :
    (n : ℕ) (sig : String) (sigs : List String) → sig ≢ "" → IsRun n (replicate n sig ++ sigs)
IsRun-first n sig sigs ne = ([], sig, sigs, ne, refl)

test_ne : (sig : String) → (sig == "") ≡ false → sig ≢ ""
test_ne sig e same = absurd (ground (arith, string_keyed.same_iff sig ""))

step-none :
    (sig : String) (r : Run) → (sig == "") ≡ true → next_run sig r ≡ record r { run = 0; prev = "" }
unfolding next_run
step-none sig r e = rw e refl

-- The names of the run that goes on, with the next signature.
IsRun-same :
    (n : ℕ) (sig : String) (sigs : List String) (r : Run)
    → r.prev ≡ sig
    → IsRun n (replicate (r.run + 1) sig ++ sigs)
    → IsRun n (replicate r.run r.prev ++ sig ∷ sigs)
IsRun-same n sig sigs r same run =
    rw (same, replicate_snoc r.run sig sigs)
      (subst (λ k. IsRun n (replicate k sig ++ sigs)) (add_one r.run) run)

-- A best that the next signature may have raised to the length of the run that it ends.
Reached-next :
    (n k : ℕ) (sig : String) (sigs : List String) (best : ℕ)
    → sig ≢ ""
    → Reached n (record { run = k; best = if ltb best k then k else best; prev = sig }) sigs
    → (n ≡ best) ⊎ IsRun n (replicate k sig ++ sigs)
Reached-next n k sig sigs best ne (inr run) = inr run
Reached-next n k sig sigs best ne (inl e) = elim (Bool-cases (ltb best k)) [
  | inl t ↦ let same : n ≡ k = rw t at e in inr (rw same (IsRun-first k sig sigs ne))
  | inr t ↦ inl (rw t at e)
]

runs-Reached : (sigs : List String) (r : Run) → Reached (runs sigs r).best r sigs
unfolding runs
runs-Reached [] r = inl refl
runs-Reached (sig ∷ sigs) r = elim (Bool-cases (sig == "")) [
  | inl e ↦
      rw (runs, step-none sig r e)
        (elim (runs-Reached sigs (record r { run = 0; prev = "" })) [
          | inl same ↦ inl same
          | inr run ↦ inr (
              IsRun-before (runs sigs (record r { run = 0; prev = "" })).best
                (replicate r.run r.prev) (sig ∷ sigs)
                (IsRun-before (runs sigs (record r { run = 0; prev = "" })).best (sig ∷ []) sigs
                  run))
        ])
  | inr e ↦ elim (Bool-cases (sig == r.prev)) [
    | inl f ↦
        let next : Run = record {
          run = r.run + 1;
          best = if ltb r.best (r.run + 1) then r.run + 1 else r.best;
          prev = sig;
        } in
        let n = (runs sigs next).best in
        rw (runs, step-same sig r e f)
          (elim (Reached-next n (r.run + 1) sig sigs r.best (test_ne sig e)
            (runs-Reached sigs next)) [
              | inl same ↦ inl same
              | inr run ↦
                  inr (IsRun-same n sig sigs r (sym ((string_keyed.same_iff sig r.prev).0 f)) run)
            ])
    | inr f ↦
        let next : Run = record {
          run = 1;
          best = if ltb r.best 1 then 1 else r.best;
          prev = sig;
        } in
        let n = (runs sigs next).best in
        rw (runs, step-other sig r e f)
          (elim (Reached-next n 1 sig sigs r.best (test_ne sig e) (runs-Reached sigs next)) [
            | inl same ↦ inl same
            | inr run ↦ inr (IsRun-before n (replicate r.run r.prev) (sig ∷ sigs) run)
          ])
  ]
]

-- `SignatureRunMax` is the length of the longest stretch of dumps with one stack: unless it is 0 there
-- is a stretch of that length, and no stretch is longer.
pub signature_run_max_lem :
    (sigs : List String)
    → ((signature_run_max sigs ≡ 0) ⊎ IsRun (signature_run_max sigs) sigs)
      × ((n : ℕ) → IsRun n sigs → n ≤ signature_run_max sigs)
unfolding signature_run_max
signature_run_max_lem sigs =
    let start : Run = record { run = 0; best = 0; prev = "" } in
    (
      runs-Reached sigs start,
      λ n (before, sig, after, ne, e). rw e (runs-bound before n sig after start ne (omega arith)),
    )
