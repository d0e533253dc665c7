-- ===== src/Tests/Texts.antt =====
-- Texts that are cut short, and certificates as texts.
use openshift_acme.Common.{true, some, ◌≡◌, refl, pos, [], ◌∷◌}
use openshift_acme.Strings.{cut}
use openshift_acme.Errors.{ok}
use openshift_acme.Cert.{
  X509, Certificate, CertPemData, certificate, new_certificate_from_der, encode_chain,
}
use openshift_acme.Util.Stored.{new_certificate_read}
use openshift_acme.Util.{certificate_from_pem, first_n_lines, join, split_n, max_n_characters}

two_lines : first_n_lines "a\nb\nc" (pos 2) ≡ "a\nb"
unfolding first_n_lines join split_n cut
two_lines = refl

two_bytes : max_n_characters (7 ∷ 8 ∷ 9 ∷ []) (pos 2) ≡ 7 ∷ 8 ∷ []
unfolding max_n_characters
two_bytes = refl

-- A world with one certificate, whose DER is one byte.
abbrev crypto : X509
crypto = record {
  pem_decode = λ text. some (1 ∷ []);
  pem_encode = λ type block. type;
  parse_certificate = λ der. some (record { not_before = pos 0; not_after = pos 90; raw = der });
  marshal_key = λ key. key;
  verify_hostname = λ c host. true;
  sum256 = λ bytes. bytes;
}

abbrev built : CertPemData
built = record { crt = "CERTIFICATECERTIFICATE"; key = "RSA PRIVATE KEY" }

new_certificate_read_example :
    (c : Certificate) × (crypto.parse_certificate (1 ∷ []) ≡ some c)
    × (certificate crypto built ≡ ok c)
    × (certificate_from_pem crypto built.crt ≡ ok c)
unfolding new_certificate_from_der encode_chain
new_certificate_read_example =
    new_certificate_read crypto (1 ∷ []) (λ rest. refl) ((2 ∷ []) ∷ []) (7 ∷ []) built refl
