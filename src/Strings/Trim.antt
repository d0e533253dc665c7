-- ===== src/Strings/Trim.antt =====
-- White space at the ends of a text.
use Prim.Native.Char.{code}
use Prim.Native.String.{◌++◌ as ◌+++◌}
use text.Mathlib.TextLemmas.{cons-append}
use openshift_acme.Common.{
  String, ◌≡◌, ◌∙◌, refl, ap, Bool, true, false, ◌&&◌, Bool-cases, inl, inr, is_empty, arith,
}
use openshift_acme.Strings.{is_space, trim_left, trim_right, trim_space}

-- Taking white space off at the left changes nothing.
abbrev IsStart : String → Type 0
IsStart s = trim_left s ≡ s

trim_left-IsStart : (s : String) → IsStart (trim_left s)
unfolding trim_left
trim_left-IsStart String.[] = refl
trim_left-IsStart (String.◌∷◌ c s) = elim (Bool-cases (is_space (code c))) [
  | inl space ↦ rw space (trim_left-IsStart s)
  | inr other ↦ rw (other, other) refl
]

trim_right_twice : (s : String) → trim_right (trim_right s) ≡ trim_right s
unfolding trim_right
trim_right_twice String.[] = refl
trim_right_twice (String.◌∷◌ c s) =
    elim (Bool-cases (is_empty (trim_right s) && is_space (code c))) [
      | inl both ↦ rw both refl
      | inr other ↦ rw other (rw (trim_right_twice s, other) refl)
    ]

trim_right-start : (s : String) → trim_left (trim_right (trim_left s)) ≡ trim_right (trim_left s)
unfolding trim_left trim_right
trim_right-start String.[] = refl
trim_right-start (String.◌∷◌ c s) = elim (Bool-cases (is_space (code c))) [
  | inl space ↦ rw space (trim_right-start s)
  | inr other ↦ rw other (elim (Bool-cases (is_empty (trim_right s))) [
    | inl empty ↦ rw (empty, other, other) refl
    | inr filled ↦ rw filled (rw other refl)
  ])
]

pub trim_space_twice : (s : String) → trim_space (trim_space s) ≡ trim_space s
unfolding trim_space
trim_space_twice s = ap trim_right (trim_right-start s) ∙ trim_right_twice (trim_left s)

unfoldable pub all_space : String → Bool
all_space String.[] = true
all_space (String.◌∷◌ c s) = all_space s && is_space (code c)

trim_right-empty : (s : String) → is_empty (trim_right s) ≡ all_space s
unfolding trim_right all_space
trim_right-empty String.[] = refl
trim_right-empty (String.◌∷◌ c s) = ground (arith, trim_right-empty s)

trim_left-all_space : (s : String) → all_space (trim_left s) ≡ all_space s
unfolding trim_left all_space
trim_left-all_space String.[] = refl
trim_left-all_space (String.◌∷◌ c s) = ground (arith, trim_left-all_space s)

pub trim_space-empty : (s : String) → is_empty (trim_space s) ≡ all_space s
unfolding trim_space
trim_space-empty s = trim_right-empty (trim_left s) ∙ trim_left-all_space s

-- A text with more behind it is blank only if it is blank itself.
pub all_space-append : (s t : String) → all_space s ≡ false → all_space (s +++ t) ≡ false
unfolding all_space
all_space-append String.[] t h = cc
all_space-append (String.◌∷◌ c s) t h = rw cons-append (ground (arith, all_space-append s t))
