-- ===== src/TemporaryName.antt =====
-- pkg/controller/route/route.go, `getTemporaryName`: the name of the objects of an exposer.
pub mod Labels
use openshift_acme.Common.{
  ℕ, ◌+◌, ◌-◌, ◌*◌, ◌/◌, ◌%◌, List, [], ◌∷◌, ◌++◌, if◌then◌else◌, ltb, map, codes,
}
use openshift_acme.Kube.{Bytes}

-- A digit of `base32.HexEncoding`, `0` to `9` and `A` to `V`.
hex_digit : ℕ → ℕ
hex_digit d = if ltb d 10 then b'0' + d else b'A' + (d - 10)

-- Five bytes are eight digits; a rest of one to four bytes is two, four, five or seven digits, with
-- no padding.
encode_digits : Bytes → List ℕ
encode_digits [] = []
encode_digits (a ∷ []) = a / 8 ∷ (a % 8 * 4) ∷ []
encode_digits (a ∷ b ∷ []) = a / 8 ∷ (a % 8 * 4 + b / 64) ∷ b / 2 % 32 ∷ (b % 2 * 16) ∷ []
encode_digits (a ∷ b ∷ c ∷ []) =
    a / 8 ∷ (a % 8 * 4 + b / 64) ∷ b / 2 % 32 ∷ (b % 2 * 16 + c / 16) ∷ (c % 16 * 2) ∷ []
encode_digits (a ∷ b ∷ c ∷ d ∷ []) =
    a / 8
    ∷ (a % 8 * 4 + b / 64)
    ∷ b / 2 % 32
    ∷ (b % 2 * 16 + c / 16)
    ∷ (c % 16 * 2 + d / 128)
    ∷ d / 4 % 32
    ∷ (d % 4 * 8)
    ∷ []
encode_digits (a ∷ b ∷ c ∷ d ∷ e ∷ rest) =
    a / 8
    ∷ (a % 8 * 4 + b / 64)
    ∷ b / 2 % 32
    ∷ (b % 2 * 16 + c / 16)
    ∷ (c % 16 * 2 + d / 128)
    ∷ d / 4 % 32
    ∷ (d % 4 * 8 + e / 32)
    ∷ e % 32
    ∷ encode_digits rest

-- `strings.ToLower` of an ASCII character.
lower : ℕ → ℕ
lower c = if ltb c b'A' then c else if ltb b'Z' c then c else c + 32

module _ (sum256 : Bytes → Bytes) where
  unfoldable pub temporary_name : Bytes → Bytes
  unfolding hex_digit encode_digits lower
  temporary_name key = codes "exposer-" ++ map lower (map hex_digit (encode_digits (sum256 key)))
