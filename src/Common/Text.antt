-- ===== src/Common/Text.antt =====
-- Texts: native strings where the program compares whole texts, their code points where it walks
-- them.
use Prim.Native.Nat.{ℕ, ◌%◌, compare, Ordering}
use Prim.Native.Char.{char, IsScalar, code}
use Prim.Native.String.{String}
use mathlib.Core.Path.{◌≡◌, refl}
use native.Mathlib.Omega.{arith}
use mathlib.Core.Bool.{Bool, true, false}
use mathlib.Core.List.{List, [], ◌∷◌}
use text.Mathlib.Text.{◌==◌}

abbrev pub codes : String → List ℕ
codes String.[] = []
codes (String.◌∷◌ c s) = code c ∷ codes s

abbrev pub str_eq : String → String → Bool
str_eq s t = s == t

-- `len(s) == 0`
abbrev pub is_empty : String → Bool
is_empty String.[] = true
is_empty (String.◌∷◌ c s) = false

pub byte-lt : (n : ℕ) → compare (n % 256) 55296 ≡ Ordering.lt
byte-lt n = ground arith

byte-IsScalar : (n : ℕ) → IsScalar (n % 256)
byte-IsScalar n = rw (byte-lt n) tt

-- The text of bytes below 256, each of which stands for the character of that number.
unfoldable pub of_codes : List ℕ → String
unfolding byte-IsScalar
of_codes [] = ""
of_codes (n ∷ ns) = String.◌∷◌ (char (n % 256) (byte-IsScalar n)) (of_codes ns)

pub empty_text : (s : String) → is_empty s ≡ true → s ≡ ""
empty_text String.[] h = refl
empty_text (String.◌∷◌ c s) h = cc
