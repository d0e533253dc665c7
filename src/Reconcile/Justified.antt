-- ===== src/Reconcile/Justified.antt =====
-- Why `sync` accepts a challenge, updates a route, and creates an order.
use openshift_acme.Common.{ℕ, String, ◌≡◌, none, some, List, pos}
use openshift_acme.Errors.{ok}
use openshift_acme.Kube.{Route, Bytes, ObjectMeta}
use openshift_acme.Acme.{pending, ready, valid, Authorization, Order, Client, Challenge}
use openshift_acme.Effects.{Action, Eff, Only, update_route, authorize_order, accept}
use openshift_acme.Cert.{new_certificate_from_der, CertPemData}
use openshift_acme.Status.{Status, set_status}
use openshift_acme.World.{World, Packages}
use openshift_acme.Reconcile.Order.{http01_challenge, exposure, with_certificate}
use openshift_acme.Reconcile.ClientFor.{client_for}
use openshift_acme.Reconcile.Acceptance.{IsServed}
use openshift_acme.Reconcile.Reached.{IsReached}

-- `RetryOnConflict` does nothing but to run its function, for some attempts.
abbrev pub RunsOnly : Packages → Type 1
RunsOnly p =
    (P : Action → Type 0) (f : ℕ → Eff (Unit {0}))
    → ((i : ℕ) → Only P (f i))
    → Only P (p.retry_on_conflict f)

-- Why a challenge is accepted: for a route that `sync` acts on, the order is pending at the server,
-- so is one of its authorizations, whose last challenge of the type `http-01` this is, it is pending
-- too, and the response to its token is served.
pub record IsAcceptable (w : World) (key : String) (c : Challenge) : Type 0 where
  pub route : Route
  pub reached : IsReached w key route
  pub client : Client
  pub chosen : client_for w route ≡ ok client
  pub order_uri : String
  pub order : Order
  pub ordered : client.get_order order_uri ≡ ok order
  pub order_pending : order.status ≡ pending
  pub authz_url : String
  pub authz : Authorization
  pub authorized : client.get_authorization authz_url ≡ ok authz
  pub authz_pending : authz.status ≡ pending
  pub picked : http01_challenge none authz.challenges ≡ some c
  pub is_http01 : c.type ≡ "http-01"
  pub challenge_pending : c.status ≡ pending
  pub response : String
  pub answered : client.challenge_response c.token ≡ ok response
  pub served : IsServed w route (exposure w client key route c response)

-- Why a route is updated: for a route that `sync` acts on, the order is ready at the server, which
-- has issued the certificate for a request for the route's host with a new key. The update is the
-- route as it was just read, with that key and certificate, and with a status in which the order is
-- valid, the failures are 0 and there is no error.
pub record IsCertified (w : World) (key : String) (updated : Route) : Type 0 where
  pub route : Route
  pub reached : IsReached w key route
  pub client : Client
  pub chosen : client_for w route ≡ ok client
  pub order_uri : String
  pub order : Order
  pub ordered : client.get_order order_uri ≡ ok order
  pub order_ready : order.status ≡ ready
  pub private_key : Bytes
  pub generated : w.packages.generate_key ≡ ok private_key
  pub request : Bytes
  pub requested : w.packages.create_csr private_key route.host ≡ ok request
  pub der : List Bytes
  pub issued : client.create_order_cert order.finalize_url request ≡ ok der
  pub pem : CertPemData
  pub encoded : new_certificate_from_der w.x509 der private_key ≡ ok pem
  pub attempt : ℕ
  pub fresh : Route
  pub fetched : w.api.get_route attempt route.meta.namespace route.meta.name ≡ ok fresh
  pub stored : Status
  pub stored_valid : stored.provisioning.order_status ≡ valid
  pub stored_failures : stored.provisioning.failures ≡ pos 0
  pub stored_error : stored.provisioning.order_error ≡ none
  pub marked : ObjectMeta × Status
  pub marks : set_status w.codec fresh.meta stored ≡ ok marked
  pub only_certificate :
      updated ≡ record fresh { meta = marked.0; tls = some (with_certificate fresh.tls pem) }

-- An order is created for the host of a route that `sync` acts on.
pub record IsOrdered (w : World) (key : String) (domain : String) : Type 0 where
  pub route : Route
  pub reached : IsReached w key route
  pub host : domain ≡ route.host

module _ (w : World) (key : String) where
  abbrev pub Justified : Action → Type 0
  Justified (accept c) = IsAcceptable w key c
  Justified (update_route r) = IsCertified w key r
  Justified (authorize_order d) = IsOrdered w key d
  Justified _ = Unit
