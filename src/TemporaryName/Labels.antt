-- ===== src/TemporaryName/Labels.antt =====
-- The names of the objects of an exposer are labels of DNS.
use openshift_acme.Common.{
  ℕ, ◌+◌, ◌*◌, ◌/◌, ◌≡◌, refl, ◌≤◌, ◌<◌, ◌⊎◌, List, [], ◌∷◌, map, arith, All, length,
}
use openshift_acme.Kube.{Bytes}
use openshift_acme.TemporaryName.{hex_digit, encode_digits, lower, temporary_name}

-- `a` to `z`, `0` to `9` and the dash.
abbrev pub IsLabelChar : ℕ → Type 0
IsLabelChar c = ((b'a' ≤ c) × (c ≤ b'z')) ⊎ (((b'0' ≤ c) × (c ≤ b'9')) ⊎ (c ≡ b'-'))

abbrev pub IsByte : ℕ → Type 0
IsByte b = b < 256

encode_digits-length : (bs : Bytes) → length (encode_digits bs) ≡ (length bs * 8 + 4) / 5
unfolding encode_digits
encode_digits-length [] = refl
encode_digits-length (a ∷ []) = refl
encode_digits-length (a ∷ b ∷ []) = refl
encode_digits-length (a ∷ b ∷ c ∷ []) = refl
encode_digits-length (a ∷ b ∷ c ∷ d ∷ []) = refl
encode_digits-length (a ∷ b ∷ c ∷ d ∷ e ∷ rest) = omega (arith, encode_digits-length rest)

encode_digits-small : (bs : Bytes) → All IsByte bs → All (λ d. d < 32) (encode_digits bs)
unfolding encode_digits
encode_digits-small [] h = tt
encode_digits-small (a ∷ []) h = ground arith
encode_digits-small (a ∷ b ∷ []) h = ground arith
encode_digits-small (a ∷ b ∷ c ∷ []) h = ground arith
encode_digits-small (a ∷ b ∷ c ∷ d ∷ []) h = ground arith
encode_digits-small (a ∷ b ∷ c ∷ d ∷ e ∷ rest) h =
    ground (arith, encode_digits-small rest h.1.1.1.1.1)

lower-hex_digit : (d : ℕ) → d < 32 → IsLabelChar (lower (hex_digit d))
unfolding lower hex_digit
lower-hex_digit d h = ground arith

label_of_digits :
    (ds : List ℕ) → All (λ d. d < 32) ds → All IsLabelChar (map lower (map hex_digit ds))
label_of_digits [] h = tt
label_of_digits (d ∷ ds) h = (lower-hex_digit d h.0, label_of_digits ds h.1)

length-map : (f : ℕ → ℕ) (xs : List ℕ) → length (map f xs) ≡ length xs
length-map f [] = refl
length-map f (x ∷ xs) = omega (arith, length-map f xs)

-- The name of the objects of an exposer has 60 characters, which are lower-case letters, digits and
-- dashes, and the first is a letter; a label of DNS has at most 63. Assumed is that SHA-256 gives 32
-- bytes.
pub temporary_name-IsLabel :
    (sum256 : Bytes → Bytes) (key : Bytes)
    → length (sum256 key) ≡ 32
    → All IsByte (sum256 key)
    → (length (temporary_name sum256 key) ≡ 60)
      × All IsLabelChar (temporary_name sum256 key)
      × ((rest : Bytes) × (temporary_name sum256 key ≡ b'e' ∷ rest))
unfolding temporary_name
temporary_name-IsLabel sum256 key size bytes =
    let digits = encode_digits (sum256 key) in
    let label = label_of_digits digits (encode_digits-small (sum256 key) bytes) in
    (
      omega (
        arith,
        size,
        length-map lower (map hex_digit digits),
        length-map hex_digit digits,
        encode_digits-length (sum256 key),
      ),
      ground (arith, label),
      (_, refl),
    )
