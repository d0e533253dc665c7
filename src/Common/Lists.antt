-- ===== src/Common/Lists.antt =====
-- Lists measured by native numbers, and predicates on the items of a list.
use Prim.Native.Nat.{ℕ, zero, suc, ◌+◌, min}
use mathlib.Core.Path.{◌≡◌, refl}
use mathlib.Core.List.{List, [], ◌∷◌, ◌++◌}
use mathlib.Core.Logic.{◌↔◌, ◌⊎◌, inl, inr}
use native.Mathlib.Omega.{arith}

module _ {ℓ} {A : Type ℓ} where
  abbrev pub length : List A → ℕ
  length [] = 0
  length (x ∷ xs) = suc (length xs)

  abbrev pub take : ℕ → List A → List A
  take zero xs = []
  take (suc n) [] = []
  take (suc n) (x ∷ xs) = x ∷ take n xs

  abbrev pub drop : ℕ → List A → List A
  drop zero xs = xs
  drop (suc n) [] = []
  drop (suc n) (x ∷ xs) = drop n xs

  pub length-append : (xs ys : List A) → length (xs ++ ys) ≡ length xs + length ys
  length-append [] ys = omega arith
  length-append (x ∷ xs) ys = omega (arith, length-append xs ys)

  pub length-take : (n : ℕ) (xs : List A) → length (take n xs) ≡ min n (length xs)
  length-take zero xs = omega arith
  length-take (suc n) [] = omega arith
  length-take (suc n) (x ∷ xs) = omega (arith, length-take n xs)

module _ {ℓ κ} {A : Type ℓ} (P : A → Type κ) where
  abbrev pub All : List A → Type κ
  All [] = Unit
  All (x ∷ xs) = P x × All xs

pub All-append {ℓ κ} :
    {A : Type ℓ} (P : A → Type κ) (xs ys : List A) → All P xs → All P ys → All P (xs ++ ys)
All-append P [] ys h k = k
All-append P (x ∷ xs) ys h k = (h.0, All-append P xs ys h.1 k)

abbrev pub Any {ℓ} : {A : Type ℓ} → (A → Type 0) → List A → Type 0
Any P [] = ⊥
Any P (x ∷ xs) = P x ⊎ Any P xs

-- The items of the lists, in order.
abbrev pub flatten {ℓ} : {A : Type ℓ} → List (List A) → List A
flatten [] = []
flatten (xs ∷ xss) = xs ++ flatten xss

-- Every item of a list satisfies what holds of all its members.
pub All-members :
    {A : Type 0} (P : A → Type 0) (xs : List A) → ((a : A) → Any (λ x. x ≡ a) xs → P a) → All P xs
All-members P [] h = tt
All-members P (x ∷ xs) h = (h x (inl refl), All-members P xs (λ a m. h a (inr m)))

pub Any-append :
    {A : Type 0} (P : A → Type 0) (xs ys : List A) → Any P (xs ++ ys) ↔ (Any P xs ⊎ Any P ys)
Any-append P [] ys = (λ h. inr h, λ h. elim h [ inl absurd ↦ elim absurd [ ] | inr there ↦ there ])
Any-append P (x ∷ xs) ys = (
  λ h. elim h [
    | inl here ↦ inl (inl here)
    | inr there ↦ elim ((Any-append P xs ys).0 there) [
      | inl left ↦ inl (inr left)
      | inr right ↦ inr right
    ]
  ],
  λ h. elim h [
    | inl left ↦ elim left [
      | inl here ↦ inl here
      | inr there ↦ inr ((Any-append P xs ys).1 (inl there))
    ]
    | inr right ↦ inr ((Any-append P xs ys).1 (inr right))
  ],
)
