-- ===== src/Util.antt =====
-- pkg/util/util.go: texts that are cut short, certificates from PEM data, and the conditions that wait
-- for an event of a watch.
pub mod Lines
pub mod Stored
use Prim.Native.String.{◌++◌ as ◌+++◌}
use openshift_acme.Common.{
  ℕ, zero, suc, String, Bool, true, false, not, Option, none, some, List, [], ◌∷◌, if◌then◌else◌, ℤ,
  pos, ltb_ℤ, leb_ℤ, pos_part, take, length, Dict, dict_eq,
}
use openshift_acme.Errors.{
  Result, ok, err, require, ◌>>=◌, unexpected_event, no_certificate_data, cannot_decode_certificate,
}
use openshift_acme.Kube.{Bytes, Route, Secret}
use openshift_acme.Cert.{X509, Certificate}
use openshift_acme.Kube.Admitted.{is_admitted}
use openshift_acme.Strings.{cut}

-- `strings.SplitN` with a number that is not negative.
unfoldable pub split_n : ℕ → ℕ → String → List String
split_n sep zero s = []
split_n sep (suc zero) s = s ∷ []
split_n sep (suc (suc n)) s = elim (cut sep s) [
  | none ↦ s ∷ []
  | some (before, after) ↦ before ∷ split_n sep (suc n) after
]

unfoldable pub joined : String → String → List String → String
joined sep part [] = part
joined sep part (p ∷ ps) = part +++ (sep +++ joined sep p ps)

-- `strings.Join`
unfoldable pub join : String → List String → String
unfolding joined
join sep [] = ""
join sep (p ∷ ps) = joined sep p ps

unfoldable pub first_n_lines : String → ℤ → String
first_n_lines s n =
    if ltb_ℤ n (pos 1)
    then ""
    else join "\n" (take (pos_part n) (split_n b'\n' (suc (pos_part n)) s))

-- The bytes of a text are counted and cut.
unfoldable pub max_n_characters : Bytes → ℤ → Bytes
max_n_characters s n =
    if ltb_ℤ n (pos 1) then [] else if leb_ℤ (pos (length s)) n then s else take (pos_part n) s

-- `watch.Event`, and what a condition answers.
pub data Event (T : Type 0) : Type 0 where
  added modified : T → Event T
  unexpected : String → Event T

unfoldable pub route_admitted : Event Route → Bool × Result (Unit {0})
route_admitted (added r) = (is_admitted r, ok tt)
route_admitted (modified r) = (is_admitted r, ok tt)
route_admitted (unexpected type) = (true, err (unexpected_event type))

-- `x` stands for encoding/pem and crypto/x509.
unfoldable pub certificate_from_pem : X509 → String → Result Certificate
certificate_from_pem x crt = do
  block ← require (x.pem_decode crt) no_certificate_data
  require (x.parse_certificate block) cannot_decode_certificate
