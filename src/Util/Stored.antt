-- ===== src/Util/Stored.antt =====
-- Util and Cert: a certificate that was built from DER is read back.
use Prim.Native.String.{◌++◌ as ◌+++◌}
use openshift_acme.Common.{String, ◌≡◌, refl, sym, ap, ◌∙◌, List, ◌∷◌, some}
use openshift_acme.Errors.{
  ok, require, continue_with-ok, require-ok, ok-injective, cannot_decode_certificate,
}
use openshift_acme.Kube.{Bytes}
use openshift_acme.Cert.{
  X509, Certificate, CertPemData, certificate, encode_chain, new_certificate_from_der,
}
use openshift_acme.Util.{certificate_from_pem}

module _ (x : X509) (der : Bytes)
    (first : (rest : String)
      → x.pem_decode (x.pem_encode "CERTIFICATE" der +++ rest) ≡ some der) where
  chain-first :
      (ders : List Bytes) (crt : String)
      → encode_chain x (der ∷ ders) ≡ ok crt
      → (c : Certificate) × (x.parse_certificate der ≡ some c) × (x.pem_decode crt ≡ some der)
  unfolding encode_chain
  chain-first ders crt h =
      let (c, parsed, h1) =
        continue_with-ok (require (x.parse_certificate der) cannot_decode_certificate) _ crt h in
      let (rest, chained, h2) = continue_with-ok (encode_chain x ders) _ crt h1 in
      (c, require-ok _ _ _ parsed, ap x.pem_decode (sym (ok-injective h2)) ∙ first rest)

  -- The data that are built from the DER of a chain of certificates are read back, by either
  -- function, as the first certificate of the chain. Assumed is that the first block of its PEM
  -- data is read, whatever follows.
  pub new_certificate_read :
      (ders : List Bytes) (key : Bytes) (pem : CertPemData)
      → new_certificate_from_der x (der ∷ ders) key ≡ ok pem
      → (c : Certificate) × (x.parse_certificate der ≡ some c)
        × (certificate x pem ≡ ok c)
        × (certificate_from_pem x pem.crt ≡ ok c)
  unfolding new_certificate_from_der certificate certificate_from_pem
  new_certificate_read ders key pem h =
      let (crt, chained, h1) = continue_with-ok (encode_chain x (der ∷ ders)) _ pem h in
      let (c, parsed, read) = chain-first ders crt chained in
      let same : pem.crt ≡ crt = ap (λ (p : CertPemData). p.crt) (sym (ok-injective h1)) in
      (c, parsed, rw (same, read, parsed) refl, rw (same, read, parsed) refl)
