-- ===== src/Prelude/Chars.antt =====
-- Classes of characters in regular expressions.
use Prim.Native.Nat.{ℕ}
use Prim.Native.Char.{Char, code}
use mathlib.Core.Bool.{Bool, ◌&&◌, ◌||◌}
use package.viswall.Prelude.Tests.{leb}

abbrev pub between : ℕ → ℕ → Char → Bool
between low high c = leb low (code c) && leb (code c) high

abbrev pub is_letter : Char → Bool
is_letter c = between b'A' b'Z' c || between b'a' b'z' c

abbrev pub is_digit : Char → Bool
is_digit c = between b'0' b'9' c
