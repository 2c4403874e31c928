-- ===== src/Common/Texts.antt =====
-- The question marks of a text.
use Prim.Native.Nat.{ℕ, ◌+◌}
use Prim.Native.Char.{Char, code}
use Prim.Native.String.{String, [], ◌∷◌, ◌++◌}
use Prim.Native.String.append as Append
use mathlib.Core.Path.{◌≡◌}
use native.Mathlib.Omega.{arith}
use gi_con_mon.Common.Tests.{if◌then◌else◌, ◌==◌}

abbrev is_mark : Char → ℕ
is_mark c = if code c == 63 then 1 else 0

unfoldable pub marks : String → ℕ
marks [] = 0
marks (c ∷ s) = is_mark c + marks s

pub marks-append : (s t : String) → marks (s ++ t) ≡ marks s + marks t
unfolding marks
marks-append [] t = rw (Append.nil t) (omega arith)
marks-append (c ∷ s) t = rw (Append.cons c s t) (omega (arith, marks-append s t))
