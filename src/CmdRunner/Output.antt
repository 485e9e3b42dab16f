-- ===== src/CmdRunner/Output.antt =====
-- http-cmd-runner/main.go: what cappedBuffer keeps of a sequence of writes.
use utilities.Base.{
  ℕ, zero, suc, min, ◌+◌, ◌-◌, ◌≤◌, ◌<◌, ◌≡◌, refl, sym, ap, ◌∙◌, false, ◌||◌, List, [], ◌∷◌, ◌++◌,
  ℤ, pos_part, ltb, length, take, length-append, All, arith,
}
use utilities.CmdRunner.Capped.{CappedBuffer, write, write_all}

abbrev pub concat : List (List ℕ) → List ℕ
concat [] = []
concat (p ∷ ps) = p ++ concat ps

module _ {A : Type 0} where
  take_all : (n : ℕ) (xs : List A) → length xs ≤ n → take n xs ≡ xs
  take_all zero [] h = refl
  take_all (suc n) [] h = refl
  take_all zero (x ∷ xs) h = absurd (omega arith)
  take_all (suc n) (x ∷ xs) h = ap (λ ys. x ∷ ys) (take_all n xs (omega arith))

  take-append_fits :
      (n : ℕ) (xs ys : List A) → length xs ≤ n → take n (xs ++ ys) ≡ xs ++ take (n - length xs) ys
  take-append_fits zero [] ys h = refl
  take-append_fits (suc n) [] ys h =
      let same : suc n ≡ suc n - 0 = omega arith in ap (λ m. take m ys) same
  take-append_fits zero (x ∷ xs) ys h = absurd (omega arith)
  take-append_fits (suc n) (x ∷ xs) ys h =
      let same : suc n - suc (length xs) ≡ n - length xs = omega arith in
      ap (λ l. x ∷ l) (rw same (take-append_fits n xs ys (omega arith)))

  take-append_past : (n : ℕ) (xs ys : List A) → n ≤ length xs → take n (xs ++ ys) ≡ take n xs
  take-append_past zero xs ys h = refl
  take-append_past (suc n) [] ys h = absurd (omega arith)
  take-append_past (suc n) (x ∷ xs) ys h = ap (λ l. x ∷ l) (take-append_past n xs ys (omega arith))

  take-append-take : (n : ℕ) (xs ys : List A) → take n (take n xs ++ ys) ≡ take n (xs ++ ys)
  take-append-take zero xs ys = refl
  take-append-take (suc n) [] ys = refl
  take-append-take (suc n) (x ∷ xs) ys = ap (λ l. x ∷ l) (take-append-take n xs ys)

  append_assoc : (xs ys zs : List A) → (xs ++ ys) ++ zs ≡ xs ++ (ys ++ zs)
  append_assoc [] ys zs = refl
  append_assoc (x ∷ xs) ys zs = ap (λ l. x ∷ l) (append_assoc xs ys zs)

  append_nil : (xs : List A) → xs ++ [] ≡ xs
  append_nil [] = refl
  append_nil (x ∷ xs) = ap (λ l. x ∷ l) (append_nil xs)

  length-take : (n : ℕ) (xs : List A) → length (take n xs) ≡ min n (length xs)
  length-take zero xs = omega arith
  length-take (suc n) [] = omega arith
  length-take (suc n) (x ∷ xs) = omega (arith, length-take n xs)

-- What one write leaves under a positive limit.
write-take :
    (c : CappedBuffer) (p : List ℕ)
    → 0 < pos_part c.limit
    → length c.buf ≤ pos_part c.limit
    → 0 < length p
    → write c p ≡ record c {
      buf = take (pos_part c.limit) (c.buf ++ p);
      truncated = c.truncated || ltb (pos_part c.limit) (length c.buf + length p);
    }
unfolding write
write-take c p positive fits some_bytes = ground (
  arith,
  take_all (pos_part c.limit) (c.buf ++ p),
  take-append_fits (pos_part c.limit) c.buf p,
  take-append_past (pos_part c.limit) c.buf p,
  take_all (pos_part c.limit) c.buf,
  length-append c.buf p,
)

abbrev pub NonEmpty : List (List ℕ) → Type 0
NonEmpty writes = All (λ p. 0 < length p) writes

write_all-take_from :
    (c : CappedBuffer) (writes : List (List ℕ))
    → 0 < pos_part c.limit
    → length c.buf ≤ pos_part c.limit
    → NonEmpty writes
    → let limit = pos_part c.limit in
      ((write_all c writes).buf ≡ take limit (c.buf ++ concat writes))
      × ((write_all c writes).truncated
          ≡ (c.truncated || ltb limit (length c.buf + length (concat writes))))
unfolding write_all
write_all-take_from c [] positive fits all =
    let same : take (pos_part c.limit) (c.buf ++ []) ≡ c.buf =
      take_all (pos_part c.limit) (c.buf ++ []) (omega (arith, length-append c.buf []))
      ∙ append_nil c.buf in
    (sym same, ground arith)
write_all-take_from c (p ∷ ps) positive fits all =
    let limit = pos_part c.limit in
    let d : CappedBuffer = record c {
      buf = take limit (c.buf ++ p);
      truncated = c.truncated || ltb limit (length c.buf + length p);
    } in
    let small : length (take limit (c.buf ++ p)) ≤ limit =
      omega (arith, length-take limit (c.buf ++ p)) in
    let (kept, flag) = write_all-take_from d ps positive small all.1 in
    rw (write_all, write-take c p positive fits all.0)
      (
        kept
            ∙ take-append-take limit (c.buf ++ p) (concat ps)
            ∙ ap (take limit) (append_assoc c.buf p (concat ps)),
        flag
            ∙ ground (
              arith,
              length-take limit (c.buf ++ p),
              length-append c.buf p,
              length-append p (concat ps),
            ),
      )

-- An output with a positive limit keeps the first bytes that the process wrote, up to the limit, and
-- is marked as truncated exactly when there were more.
pub write_all-take :
    (limit : ℤ) (writes : List (List ℕ))
    → 0 < pos_part limit
    → NonEmpty writes
    → let out = write_all (record { buf = []; limit = limit; truncated = false }) writes in
      (out.buf ≡ take (pos_part limit) (concat writes))
      × (out.truncated ≡ ltb (pos_part limit) (length (concat writes)))
write_all-take limit writes positive all =
    let (kept, flag) =
      write_all-take_from (record { buf = []; limit = limit; truncated = false }) writes positive
        (omega arith) all in
    (kept, flag ∙ ap (ltb (pos_part limit)) (omega arith))
