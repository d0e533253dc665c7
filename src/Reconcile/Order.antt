-- ===== src/Reconcile/Order.antt =====
-- pkg/controller/route/route.go, `sync`: one step of the state machine of an ACME order.
use openshift_acme.Common.{
  ℕ, String, not, Option, none, some, List, [], ◌∷◌, if◌then◌else◌, str_eq, pos, ◌+ℤ◌,
}
use openshift_acme.Errors.{
  invalid_authz_status, no_viable_challenge, invalid_challenge_status, invalid_order_status,
}
use openshift_acme.Kube.{Route, TlsConfig}
use openshift_acme.Acme.{
  AcmeStatus, none_yet, pending, processing, ready, valid, invalid, expired, revoked, deactivated,
  same_status, Challenge, Authorization, Order, Client,
}
use openshift_acme.Effects.{
  Eff, pure, fail, lift, call, act, ignore_error, ◌>>=◌, ◌>>◌, add_after, get_authorization,
  create_order_cert, get_route, update_route, delete_exposers, event,
}
use openshift_acme.Status.{Status, CertProvisioningStatus, set_status, update_status}
use openshift_acme.Cert.{CertPemData, new_certificate_from_der}
use openshift_acme.World.{World}
use openshift_acme.Exposer.{Exposure, exposure_id, temporary_name_of}
use openshift_acme.Reconcile.Expose.{Flow, next_authz, return_nil, requeue_delay, expose}

-- The last challenge of the type `http-01`.
unfoldable pub http01_challenge : Option Challenge → List Challenge → Option Challenge
http01_challenge found [] = found
http01_challenge found (c ∷ cs) =
    http01_challenge (if str_eq c.type "http-01" then some c else found) cs

-- `CleanupExposerObjects`
unfoldable pub cleanup_exposer_objects : World → Route → Eff (Unit {0})
cleanup_exposer_objects w route =
    call (delete_exposers route.meta.namespace route.meta.uid)
      (w.api.delete_exposers route.meta.namespace route.meta.uid)

-- The status that a failed order leaves: one more failure if its status is new.
unfoldable pub count_failure : AcmeStatus → CertProvisioningStatus → CertProvisioningStatus
count_failure previous p =
    if not (same_status p.order_status previous)
    then record p { failures = p.failures +ℤ pos 1 }
    else p

-- The texts of the exposure of a challenge.
unfoldable pub exposure : World → Client → String → Route → Challenge → String → Exposure
exposure w client key route challenge response =
    let path = client.challenge_path challenge.token in
    let id = exposure_id route.host path in
    record { id = id; name = temporary_name_of w id; key = key; path = path; response = response }

-- The loop goes on, or `sync` returns nil.
unfoldable pub after_authz : Eff (Unit {0}) → Flow → Eff (Unit {0})
after_authz rest next_authz = rest
after_authz rest return_nil = pure tt

module _ (w : World) (client : Client) (key : String) (route : Route) where
  unfoldable pub pend : Challenge → AcmeStatus → Eff Flow
  unfolding exposure
  pend challenge pending = do
    response ← lift (client.challenge_response challenge.token)
    expose w client route (exposure w client key route challenge response) challenge
  pend challenge processing = do act (add_after key requeue_delay); pure next_authz
  pend challenge valid = do act (add_after key requeue_delay); pure next_authz
  pend challenge invalid = do act (add_after key requeue_delay); pure next_authz
  pend challenge _ = fail invalid_challenge_status

  unfoldable pub with_challenge : Option Challenge → Eff Flow
  unfolding pend
  with_challenge none = fail no_viable_challenge
  with_challenge (some c) = pend c c.status

  unfoldable pub step_authz : Authorization → AcmeStatus → Eff Flow
  unfolding with_challenge
  step_authz authz pending = with_challenge (http01_challenge none authz.challenges)
  step_authz authz valid = pure next_authz
  step_authz authz invalid = pure next_authz
  step_authz authz deactivated = pure next_authz
  step_authz authz expired = pure next_authz
  step_authz authz revoked = pure next_authz
  step_authz authz _ = fail invalid_authz_status

  -- The loop over `order.AuthzURLs`; `done` is the rest of `sync` behind it.
  unfoldable pub authorize_all : List String → Eff (Unit {0}) → Eff (Unit {0})
  unfolding after_authz
  authorize_all [] done = done
  authorize_all (url ∷ urls) done =
      let rest = authorize_all urls done in
      do
        authz ← call (get_authorization url) (client.get_authorization url)
        flow ← step_authz authz authz.status
        after_authz rest flow

-- The TLS section of the updated route.
unfoldable pub with_certificate : Option TlsConfig → CertPemData → TlsConfig
with_certificate none pem = record {
  termination = "edge";
  insecure_policy = "Redirect";
  key = pem.key;
  certificate = pem.crt;
}
with_certificate (some tls) pem = record tls { key = pem.key; certificate = pem.crt }

module _ (w : World) (route : Route) where
  -- One attempt of `RetryOnConflict`.
  unfoldable pub store_certificate : CertPemData → Status → ℕ → Eff (Unit {0})
  unfolding with_certificate
  store_certificate pem status attempt = do
    fresh ←
        call (get_route route.meta.namespace route.meta.name)
          (w.api.get_route attempt route.meta.namespace route.meta.name)
    (obj, _) ← lift (set_status w.codec fresh.meta status)
    let updated = record fresh { meta = obj; tls = some (with_certificate fresh.tls pem) }
    call (update_route updated) (w.api.update_route attempt updated)

  abbrev pub save : Status → Eff (Unit {0})
  save = update_status w.codec w.api.patch_status route

module _ (w : World) (client : Client) (key : String) (route : Route) where
  -- The order is ready: request the certificate, store it, clean up.
  unfoldable pub finalize : Status → Order → Eff (Unit {0})
  finalize status order = do
    private_key ← lift w.packages.generate_key
    csr ← lift (w.packages.create_csr private_key route.host)
    der ←
        call (create_order_cert order.finalize_url)
          (client.create_order_cert order.finalize_url csr)
    pem ← lift (new_certificate_from_der w.x509 der private_key)
    let stored = record status {
      provisioning = record (status.provisioning) {
        order_status = valid;
        failures = pos 0;
        order_error = none;
      };
    }
    w.packages.retry_on_conflict (store_certificate w route pem stored)
    ignore_error (cleanup_exposer_objects w route)

  unfoldable pub abandon : AcmeStatus → Status → Eff (Unit {0})
  abandon previous status = do
    ignore_error (cleanup_exposer_objects w route)
    save w route (record status { provisioning = count_failure previous status.provisioning })

  -- The order waits for the ACME server.
  abbrev await : Status → Eff (Unit {0})
  await status = do act (add_after key requeue_delay); save w route status

  -- The order is valid, and the key of its certificate is lost.
  abbrev restart : AcmeStatus → Status → Eff (Unit {0})
  restart previous status = do
    let counted = count_failure previous status.provisioning
    ignore_error (cleanup_exposer_objects w route)
    save w route (record status {
      provisioning = record counted { order_uri = ""; order_status = none_yet };
    })

  -- The order has failed.
  abbrev report_failed : AcmeStatus → Status → Eff (Unit {0})
  report_failed previous status = do
    act (event "AcmeFailedOrder")
    ignore_error (cleanup_exposer_objects w route)
    save w route (record status { provisioning = count_failure previous status.provisioning })

  -- `switch order.Status`, with the status that the server has reported already in `status`, and the
  -- status of the order before.
  unfoldable pub step_order : AcmeStatus → AcmeStatus → Status → Order → Eff (Unit {0})
  unfolding abandon
  step_order pending previous status order =
      authorize_all w client key route order.authz_urls (save w route status)
  step_order processing previous status order = await status
  step_order ready previous status order = finalize status order
  step_order valid previous status order = restart previous status
  step_order invalid previous status order = report_failed previous status
  step_order expired previous status order = abandon previous status
  step_order revoked previous status order = abandon previous status
  step_order deactivated previous status order = abandon previous status
  step_order _ previous status order = fail invalid_order_status
