-- ===== src/Cert.antt =====
-- pkg/cert/cert.go: certificates as PEM data and their validity. The decoders and the hash of Go's
-- crypto packages are the parameter `X509`.
use openshift_acme.Common.{String, Bool, Option, List, [], ◌∷◌, not, ◌&&◌, ltb_ℤ}
use Prim.Native.String.{◌++◌ as ◌+++◌}
use openshift_acme.Kube.{Time, Bytes}
use openshift_acme.Errors.{
  Result, ok, err, require, ◌>>=◌, no_certificate_data, cannot_decode_certificate, empty_der,
}

pub record Certificate : Type 0 where
  pub not_before : Time
  pub not_after : Time
  pub raw : Bytes

-- What the code calls of encoding/pem, crypto/x509 and crypto/sha256. `pem_decode` gives the bytes
-- of the first block; `pem_encode` the text of a block of a type.
pub record X509 : Type 0 where
  pub pem_decode : String → Option Bytes
  pub pem_encode : String → Bytes → String
  pub parse_certificate : Bytes → Option Certificate
  pub marshal_key : Bytes → Bytes
  pub verify_hostname : Certificate → String → Bool
  pub sum256 : Bytes → Bytes

pub record CertPemData : Type 0 where
  pub crt : String
  pub key : String

module _ (x : X509) where
  open x use {pem_decode, parse_certificate}

  unfoldable pub certificate : CertPemData → Result Certificate
  certificate c = do
    block ← require (pem_decode c.crt) no_certificate_data
    require (parse_certificate block) cannot_decode_certificate

  -- The PEM blocks of the certificates, each of which must parse.
  unfoldable pub encode_chain : List Bytes → Result String
  encode_chain [] = ok ""
  encode_chain (der ∷ ders) = do
    c ← require (parse_certificate der) cannot_decode_certificate
    rest ← encode_chain ders
    ok (x.pem_encode "CERTIFICATE" der +++ rest)

  unfoldable pub new_certificate_from_der : List Bytes → Bytes → Result CertPemData
  unfolding encode_chain
  new_certificate_from_der [] key = err empty_der
  new_certificate_from_der (der ∷ ders) key = do
    crt ← encode_chain (der ∷ ders)
    ok (record { crt = crt; key = x.pem_encode "RSA PRIVATE KEY" (x.marshal_key key) })

unfoldable pub is_valid : Certificate → Time → Bool
is_valid c t = not (ltb_ℤ t c.not_before) && not (ltb_ℤ c.not_after t)
