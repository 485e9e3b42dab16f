-- ===== src/CmdRunner/Capped.antt =====
-- http-cmd-runner/main.go: `cappedBuffer`.
use utilities.Base.{
  ℕ, ◌-◌, Bool, true, List, [], ◌∷◌, ◌++◌, ℤ, pos_part, ltb, leb, length, take, if◌then◌else◌,
}

-- Bytes by their values.
pub record CappedBuffer : Type 0 where
  pub buf : List ℕ
  pub limit : ℤ
  pub truncated : Bool

-- `Write`, which always reports that it took all of `p`; a limit that is not positive is none.
unfoldable pub write : CappedBuffer → List ℕ → CappedBuffer
write c p =
    let limit = pos_part c.limit in
    let remaining = limit - length c.buf in
    if ltb 0 limit
    then if leb limit (length c.buf)
      then record c { truncated = true }
      else if ltb remaining (length p)
      then record c { buf = c.buf ++ take remaining p; truncated = true }
      else record c { buf = c.buf ++ p }
    else record c { buf = c.buf ++ p }

unfoldable pub write_all : CappedBuffer → List (List ℕ) → CappedBuffer
unfolding write
write_all c [] = c
write_all c (p ∷ ps) = write_all (write c p) ps
