-- ===== src/PrivateKey.antt =====
-- pkg/helpers/helpers.go: the private key of an ACME account, from its secret.
use openshift_acme.Common.{String, Option, lookup}
use openshift_acme.Errors.{Result, require, ◌>>=◌, missing_private_key, invalid_private_key}
use openshift_acme.Kube.{Secret, Bytes}

-- `pem_decode` is pem.Decode, `parse_key` is x509.ParsePKCS1PrivateKey.
module _ (pem_decode : String → Option Bytes) (parse_key : Bytes → Option Bytes) where
  unfoldable pub private_key_from_secret : Secret → Result Bytes
  private_key_from_secret secret = do
    text ← require (lookup "tls.key" secret.contents) missing_private_key
    block ← require (pem_decode text) invalid_private_key
    require (parse_key block) invalid_private_key
