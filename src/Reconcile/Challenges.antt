-- ===== src/Reconcile/Challenges.antt =====
-- Which challenges `sync` accepts, and which routes it updates.
use openshift_acme.Common.{ℕ, String, ◌≡◌, refl, none, List, All, pos}
use openshift_acme.Errors.{ok}
use openshift_acme.Kube.{Route, Bytes}
use openshift_acme.Acme.{AcmeStatus, pending, ready, valid, Order, Client, unknown, none_yet}
use openshift_acme.Effects.{
  Action, lift, call, Only, Only-bind, Only-call, Only-lift, Only-fail, Only-mono,
  Only-ignore_error, update_route, get_route, create_order_cert, accept,
}
use openshift_acme.Cert.{new_certificate_from_der, CertPemData}
use openshift_acme.Status.{Status, set_status}
use openshift_acme.World.{World}
use openshift_acme.Reconcile.Order.{
  save, finalize, store_certificate, abandon, step_order, cleanup_exposer_objects,
}
use openshift_acme.Reconcile.ClientFor.{client_for}
use openshift_acme.Reconcile.Sync.{sync}
use openshift_acme.Reconcile.Acceptance.{only_rules}
use openshift_acme.Reconcile.Reached.{
  IsReached, AllowsBooks, save-Only, sync_managed-Only, sync-Only,
}
use openshift_acme.Reconcile.Authorized.{authorize_all-Only}
use openshift_acme.Reconcile.Justified.{RunsOnly, IsAcceptable, IsCertified, Justified}

module _ (w : World) (key : String) where
  abbrev pub AcceptsAcceptable : Action → Type 0
  AcceptsAcceptable (accept c) = IsAcceptable w key c
  AcceptsAcceptable _ = Unit

  abbrev pub UpdatesCertified : Action → Type 0
  UpdatesCertified (update_route r) = IsCertified w key r
  UpdatesCertified _ = Unit

module _ (w : World) (key : String) where
  books : AllowsBooks (Justified w key) key
  books = record { later = λ _. tt; patched = λ _ _ _. tt; asked = λ _. tt }

module _ (w : World) (key : String) (route : Route) (reached : IsReached w key route)
    (client : Client) (chosen : client_for w route ≡ ok client) (order_uri : String) (order : Order)
    (ordered : client.get_order order_uri ≡ ok order) (order_ready : order.status ≡ ready)
    (private_key request : Bytes) (generated : w.packages.generate_key ≡ ok private_key)
    (requested : w.packages.create_csr private_key route.host ≡ ok request) (der : List Bytes)
    (issued : client.create_order_cert order.finalize_url request ≡ ok der) (pem : CertPemData)
    (encoded : new_certificate_from_der w.x509 der private_key ≡ ok pem) where
  store_certificate-Only :
      (stored : Status)
      → stored.provisioning.order_status ≡ valid
      → stored.provisioning.failures ≡ pos 0
      → stored.provisioning.order_error ≡ none
      → (attempt : ℕ) → Only (Justified w key) (store_certificate w route pem stored attempt)
  unfolding store_certificate
  store_certificate-Only stored is_valid no_failures no_error attempt =
      Only-bind (call (get_route route.meta.namespace route.meta.name) _) _ (Only-call _ _ tt)
        (λ fresh fetched.
          Only-bind (lift (set_status w.codec fresh.meta stored)) _ (Only-lift _) (λ marked marks.
            Only-call _ _ (record {
              route = route;
              reached = reached;
              client = client;
              chosen = chosen;
              order_uri = order_uri;
              order = order;
              ordered = ordered;
              order_ready = order_ready;
              private_key = private_key;
              generated = generated;
              request = request;
              requested = requested;
              der = der;
              issued = issued;
              pem = pem;
              encoded = encoded;
              attempt = attempt;
              fresh = fresh;
              fetched = fetched;
              stored = stored;
              stored_valid = is_valid;
              stored_failures = no_failures;
              stored_error = no_error;
              marked = marked;
              marks = marks;
              only_certificate = refl;
            })))

module _ (w : World) (key : String) (route : Route) (runs_only : RunsOnly w.packages)
    (reached : IsReached w key route) (client : Client)
    (chosen : client_for w route ≡ ok client) where
  cleanup-Only : Only (Justified w key) (cleanup_exposer_objects w route)
  unfolding cleanup_exposer_objects
  cleanup-Only = Only-call _ _ tt

  finalize-Only :
      (order_uri : String) (order : Order) (status : Status)
      → client.get_order order_uri ≡ ok order
      → order.status ≡ ready
      → Only
          (Justified w key)
          (finalize w client key route status (record order { uri = order_uri }))
  unfolding finalize
  finalize-Only uri order status ordered is_ready =
      Only-bind (lift w.packages.generate_key) _ (Only-lift _) (λ private_key generated.
        Only-bind (lift (w.packages.create_csr private_key route.host)) _ (Only-lift _)
          (λ request requested.
            Only-bind
              (call (create_order_cert order.finalize_url)
                (client.create_order_cert order.finalize_url request))
              _ (Only-call _ _ tt)
              (λ der issued.
                Only-bind (lift (new_certificate_from_der w.x509 der private_key)) _ (Only-lift _)
                  (λ pem encoded.
                    Only-bind (w.packages.retry_on_conflict _) _
                      (runs_only _ _ (
                        store_certificate-Only w key route reached client chosen uri order ordered
                          is_ready private_key request generated requested der issued pem encoded _
                          refl refl refl))
                      (λ _ _. Only-ignore_error _ cleanup-Only)))))

  -- The step of an order, by the status that the server reports.
  step_order-Only :
      (previous : AcmeStatus) (status : Status) (uri : String) (order : Order) (s : AcmeStatus)
      → client.get_order uri ≡ ok order
      → order.status ≡ s
      → Only
          (Justified w key)
          (step_order w client key route s previous status (record order { uri = uri }))
  unfolding step_order abandon
  step_order-Only previous status uri order pending ordered e =
      authorize_all-Only w key route reached client chosen uri order ordered e order.authz_urls
        (save w route status) (save-Only (books w key) w route status)
  step_order-Only previous status uri order ready ordered e =
      finalize-Only uri order status ordered e
  step_order-Only previous status uri order none_yet ordered e = Only-fail _
  step_order-Only previous status uri order (unknown t) ordered e = Only-fail _
  step_order-Only previous status uri order _ ordered e =
      search (only_rules, save-Only (books w key), cleanup-Only, tt)

justified : (w : World) (key : String) → RunsOnly w.packages → Only (Justified w key) (sync w key)
justified w key runs_only = sync-Only (Justified w key) w key (λ route reached.
    sync_managed-Only (books w key) w route
      (record { route = route; reached = reached; host = refl })
      (λ client status order chosen ordered.
        step_order-Only w key route runs_only reached client chosen _ _ _ order order.status ordered
          refl))

-- Every update of a route by a reconciliation follows an order of a managed and admitted route that
-- is ready at the server; it is the route as just read with the key and the certificate that the
-- server has issued for the route's host, and with a status of a valid order and no failures; all
-- else of the route stays. Assumed is that RetryOnConflict only runs its function.
pub updates_only_certified :
    (w : World) (key : String) → RunsOnly w.packages → All (UpdatesCertified w key) (sync w key).0
updates_only_certified w key runs_only =
    (Only-mono _ of_justified (justified w key runs_only)).actions
  where
    of_justified : (a : Action) → Justified w key a → UpdatesCertified w key a
    of_justified (update_route r) h = h
    of_justified _ h = tt
