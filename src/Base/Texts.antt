-- ===== src/Base/Texts.antt =====
-- Go's `strings` on native texts.

use Prim.Native.String.{String, [] as empty_text, ◌∷◌ as ◌then◌, ◌++◌ as str_append}
use Prim.Native.String.append
use Prim.Native.Char.{code}
use mathlib.Core.Path.{◌≡◌, refl, ap, ◌∙◌}
use mathlib.Core.Option.{Option, none, some}
use utilities.Base.Tests.{eqb, eqb_iff, if◌then◌else◌}

-- `strings.HasPrefix` with `strings.TrimPrefix`
unfoldable pub strip : String → String → Option String
strip empty_text s = some s
strip (c then p) empty_text = none
strip (c then p) (d then s) = let rest = strip p s in if eqb (code c) (code d) then rest else none

pub strip-append : (p s : String) → strip p (str_append p s) ≡ some s
unfolding strip
strip-append empty_text s = ap some (append.nil s)
strip-append (c then p) s =
    ap (strip (c then p)) (append.cons c p s)
    ∙ rw ((eqb_iff (code c) (code c)).1 refl) (strip-append p s)
