-- ===== src/Util/Lines.antt =====
-- Util: the first lines of a text.
use Prim.Native.Char.{Char, code}
use openshift_acme.Common.{
  ℕ, zero, suc, String, ◌≡◌, ◌∙◌, refl, sym, ap, Option, none, some, List, [], ◌∷◌, ℤ, pos, negsuc,
  pos_part, ltb_ℤ, false, take, Bool-cases, inl, inr, ◌==◌, arith,
}
use openshift_acme.Strings.{cut, before_cut, split, before_first}
use openshift_acme.Util.{split_n, join, first_n_lines}

-- The parts of a text, from its first separator.
abbrev parts : ℕ → String → Option (String × String) → List String
parts sep s none = s ∷ []
parts sep s (some (before, after)) = before ∷ split sep after

before_first-parts :
    (sep : ℕ) (c : Char) (s : String) (r : Option (String × String))
    → before_first c (parts sep s r) ≡ parts sep (String.◌∷◌ c s) (before_cut c r)
unfolding before_first before_cut
before_first-parts sep c s none = refl
before_first-parts sep c s (some (before, after)) = refl

split-parts : (sep : ℕ) (s : String) → split sep s ≡ parts sep s (cut sep s)
unfolding split cut
split-parts sep String.[] = refl
split-parts sep (String.◌∷◌ c s) = elim (Bool-cases (code c == sep)) [
  | inl same ↦ rw same refl
  | inr other ↦
      rw other (ap (before_first c) (split-parts sep s) ∙ before_first-parts sep c s (cut sep s))
]

take-split_n : (sep n : ℕ) (s : String) → take n (split_n sep (suc n) s) ≡ take n (split sep s)
unfolding split_n
take-split_n sep zero s = refl
take-split_n sep (suc n) s =
    go (λ after. take-split_n sep n after) (cut sep s) ∙ ap (take (suc n)) (sym (split-parts sep s))
  where
    go :
        ((after : String) → take n (split_n sep (suc n) after) ≡ take n (split sep after))
        → (r : Option (String × String))
        → take
            (suc n)
            (elim r [ none ↦ s ∷ [] | some (before, after) ↦ before ∷ split_n sep (suc n) after ])
          ≡ take (suc n) (parts sep s r)
    go rest none = refl
    go rest (some (before, after)) = ap (λ ps. before ∷ ps) (rest after)

-- The first lines of a text are the first of all its lines, joined; a number below one is as zero.
pub first_n_lines_lem :
    (s : String) (n : ℤ) → first_n_lines s n ≡ join "\n" (take (pos_part n) (split b'\n' s))
unfolding first_n_lines join
first_n_lines_lem s (negsuc n) = ground arith
first_n_lines_lem s (pos zero) = refl
first_n_lines_lem s (pos (suc n)) =
    let many : ltb_ℤ (pos (suc n)) (pos 1) ≡ false = ground arith in
    rw many (ap (join "\n") (take-split_n b'\n' (suc n) s))
