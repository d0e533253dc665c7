-- ===== src/Strings/Split.antt =====
-- The parts of a text at a separator.
use Prim.Native.Char.{code, Char}
use Prim.Native.String.{◌++◌ as ◌+++◌}
use text.Mathlib.TextLemmas.{cons-append, nil-append}
use openshift_acme.Common.{ℕ, String, ◌≡◌, ◌≢◌, refl, [], ◌∷◌, none, some, arith}
use openshift_acme.Strings.{cut, split}

-- The text holds no such character.
abbrev pub Free : ℕ → String → Type 0
Free sep String.[] = Unit
Free sep (String.◌∷◌ c s) = (code c ≢ sep) × Free sep s

pub cut_at :
    (sep : Char) (s t : String)
    → Free (code sep) s
    → cut (code sep) (s +++ String.◌∷◌ sep t) ≡ some (s, t)
unfolding cut
cut_at sep String.[] t h = rw nil-append (ground arith)
cut_at sep (String.◌∷◌ c s) t h = rw cons-append (ground (arith, cut_at sep s t h.1))

pub split_one : (sep : ℕ) (s : String) → Free sep s → split sep s ≡ s ∷ []
unfolding split
split_one sep String.[] h = refl
split_one sep (String.◌∷◌ c s) h = ground (arith, split_one sep s h.1)

pub split_at :
    (sep : Char) (s t : String)
    → Free (code sep) s
    → split (code sep) (s +++ String.◌∷◌ sep t) ≡ s ∷ split (code sep) t
unfolding split
split_at sep String.[] t h = rw nil-append (ground arith)
split_at sep (String.◌∷◌ c s) t h = rw cons-append (ground (arith, split_at sep s t h.1))

pub cut_absent : (sep : ℕ) (s : String) → Free sep s → cut sep s ≡ none
unfolding cut
cut_absent sep String.[] h = refl
cut_absent sep (String.◌∷◌ c s) h = ground (arith, cut_absent sep s h.1)
