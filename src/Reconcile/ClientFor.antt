-- ===== src/Reconcile/ClientFor.antt =====
-- pkg/controller/route/route.go, `sync`: the issuer of a route and the ACME client for it.
use openshift_acme.Common.{Option}
use openshift_acme.Errors.{
  Result, ok, err, require, ◌>>=◌, unsupported_issuer_type, missing_acme_issuer,
}
use openshift_acme.Kube.{Route}
use openshift_acme.Acme.{Client}
use openshift_acme.Issuer.{CertIssuerType, acme, unsupported, AcmeCertIssuer, issuer_for_object}
use openshift_acme.PrivateKey.{private_key_from_secret}
use openshift_acme.Profile.{cert_profile_for_route}
use openshift_acme.World.{World}

acme_spec : CertIssuerType → Option AcmeCertIssuer → Result AcmeCertIssuer
acme_spec acme spec = require spec missing_acme_issuer
acme_spec (unsupported t) spec = err unsupported_issuer_type

module _ (w : World) where
  -- The issuer of the route, and the ACME client for it.
  unfoldable pub client_for : Route → Result Client
  unfolding acme_spec
  client_for route = do
    (issuer, secret) ← issuer_for_object w.caches.issuers w.config.controller_namespace route.meta
    spec ← acme_spec issuer.type issuer.acme_cert_issuer
    account_key ← private_key_from_secret w.x509.pem_decode w.packages.parse_key secret
    ok (
        w.acme (record {
          directory_url = spec.directory_url;
          key = account_key;
          profile = cert_profile_for_route route w.config.cert_default_profile;
        }))
