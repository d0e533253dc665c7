-- ===== src/Strings.antt =====
-- What the program calls of Go's package strings, over the characters of a text.
pub mod Trim
pub mod Split
use Prim.Native.Char.{Char, code}
use openshift_acme.Common.{
  ℕ, String, Bool, ◌&&◌, ◌||◌, Option, none, some, List, [], ◌∷◌, if◌then◌else◌, ◌==◌, leb,
  is_empty,
}

-- `unicode.IsSpace`
unfoldable pub is_space : ℕ → Bool
is_space c =
    (leb 9 c && leb c 13)
    || (c == 0x20
        || (c == 0x85
            || (c == 0xa0
                || (c == 0x1680
                    || ((leb 0x2000 c && leb c 0x200a)
                        || (c == 0x2028
                            || (c == 0x2029 || (c == 0x202f || (c == 0x205f || c == 0x3000)))))))))

unfoldable pub trim_left : String → String
trim_left String.[] = ""
trim_left (String.◌∷◌ c s) =
    let rest = trim_left s in if is_space (code c) then rest else String.◌∷◌ c s

unfoldable pub trim_right : String → String
trim_right String.[] = ""
trim_right (String.◌∷◌ c s) =
    let rest = trim_right s in if is_empty rest && is_space (code c) then "" else String.◌∷◌ c rest

-- `strings.TrimSpace`
unfoldable pub trim_space : String → String
unfolding trim_left trim_right is_space
trim_space s = trim_right (trim_left s)

-- A character before the part in front of a separator.
unfoldable pub before_cut : Char → Option (String × String) → Option (String × String)
before_cut c none = none
before_cut c (some (before, after)) = some (String.◌∷◌ c before, after)

-- The parts before and after the first separator: `strings.Cut`, and `strings.SplitN` with 2 where
-- it gives two parts.
unfoldable pub cut : ℕ → String → Option (String × String)
unfolding before_cut
cut sep String.[] = none
cut sep (String.◌∷◌ c s) =
    let rest = cut sep s in if code c == sep then some ("", s) else before_cut c rest

-- A character in front of the first of the parts.
unfoldable pub before_first : Char → List String → List String
before_first c [] = String.◌∷◌ c "" ∷ []
before_first c (part ∷ parts) = String.◌∷◌ c part ∷ parts

-- `strings.Split` by a separator of one character.
unfoldable pub split : ℕ → String → List String
unfolding before_first
split sep String.[] = "" ∷ []
split sep (String.◌∷◌ c s) =
    let rest = split sep s in if code c == sep then "" ∷ rest else before_first c rest
