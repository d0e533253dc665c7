-- ===== src/Tests/Lifecycle.antt =====
-- The certificate of a route from its order to its installation, at the sample world.
use openshift_acme.Common.{◌≡◌, refl, pos, some, lookup, insert, dict_eq, [], ◌∷◌, quot, ◌-ℤ◌, ◌+ℤ◌}
use openshift_acme.Errors.{ok}
use openshift_acme.Kube.{Route}
use openshift_acme.Kube.Key
use openshift_acme.Kube.Managed.{is_managed, is_temporary}
use openshift_acme.Kube.Admitted.{is_admitted}
use openshift_acme.Acme.{AcmeStatus, none_yet, pending, ready, Order}
use openshift_acme.Cert.{new_certificate_from_der, certificate, is_valid}
use openshift_acme.Effects.{
  authorize_order, get_order, get_authorization, accept, add_after, patch_status, create_order_cert,
  get_route, update_route, delete_exposers, ◌>>=◌,
}
use openshift_acme.Status.{Status, get_status, set_status}
use openshift_acme.Status.Stored.{observed}
use openshift_acme.Renewal.{
  no_reason, missing_cert_key, needs_cert_key, needs_renewal, time_sub, proactive_renewal_threshold,
  big_endian_uint64,
}
use openshift_acme.Issuer.{issuer_for_object, issuer_config_maps}
use openshift_acme.PrivateKey.{private_key_from_secret}
use openshift_acme.Profile.{cert_profile_for_route}
use openshift_acme.Strings.{trim_space}
use openshift_acme.World.{World}
use openshift_acme.Reconcile.ClientFor.{client_for}
use openshift_acme.Reconcile.Reached.{IsReached}
use openshift_acme.Reconcile.Sync.{sync, with_backoff}
use openshift_acme.Reconcile.Order.{with_certificate, exposure, http01_challenge}
use openshift_acme.Reconcile.Expose.{check_exposer, is_available}
use openshift_acme.Reconcile.Sample.{
  world, world_with, status, route, client, challenge, replica_set,
}
use openshift_acme.Reconcile.Lifecycle.{certified, IsIssued, ready_order_installs}
use openshift_acme.Reconcile.Begin.{needed_certificate_ordered}
use openshift_acme.Reconcile.Rest.{installed_certificate_rests}
use openshift_acme.Reconcile.Accepted.{IsExposed, exposed_challenge_accepted}
use openshift_acme.Exposer.{exposure_id, exposer_resources}
use openshift_acme.LimitRanges.{adjust_container}
use openshift_acme.Token.{validate_exposed_token}
use openshift_acme.Status.{update_status}

chosen : (s : AcmeStatus) (stored : Status) → client_for (world s stored) route ≡ ok (client s)
unfolding client_for issuer_for_object issuer_config_maps private_key_from_secret
    cert_profile_for_route trim_space lookup
chosen s stored = refl

cached : (s : AcmeStatus) (stored : Status) → IsReached (world s stored) "web/shop" route
unfolding is_managed is_temporary lookup is_admitted
cached s stored = record { found = refl; alive = refl; managed = refl; admitted = refl }

stored_status :
    (s : AcmeStatus) (stored : Status) → get_status (world s stored).codec route ≡ ok stored
unfolding get_status lookup
stored_status s stored = refl

uncertified :
    (s : AcmeStatus) (stored : Status)
    → needs_cert_key (world s stored).x509 (pos 10) route ≡ ok (missing_cert_key, pos 0)
unfolding needs_cert_key
uncertified s stored = refl

-- The world in which the order is ready.
abbrev ready_world : World
ready_world = world ready (status ready "o1")

abbrev order : AcmeStatus → Order
order s = record { uri = "o1"; status = s; authz_urls = "a1" ∷ []; finalize_url = "f" }

-- The route with its certificate.
abbrev updated : Route
updated = record route {
  meta = record (route.meta) {
    annotations = ("kubernetes.io/tls-acme", "true") ∷ (Key.status, "yaml") ∷ [];
  };
  tls = some (record {
    termination = "edge";
    insecure_policy = "Redirect";
    key = "RSA PRIVATE KEY";
    certificate = "CERTIFICATE";
  });
}

abbrev delayed : Status
delayed = with_backoff ready_world "web/shop" route (status ready "o1")

issued : IsIssued ready_world (client ready) route (order ready) delayed updated
unfolding new_certificate_from_der set_status insert with_certificate
issued = record {
  private_key = 1 ∷ [];
  generated = refl;
  request = 1 ∷ [];
  requested = refl;
  der = (1 ∷ []) ∷ [];
  issued = refl;
  pem = record { crt = "CERTIFICATE"; key = "RSA PRIVATE KEY" };
  encoded = refl;
  fresh = route;
  fetched = refl;
  marked = (updated.meta, observed route.meta (certified delayed));
  marks = refl;
  is_updated = refl;
  accepted = refl;
}

ready_order_installs_example : sync ready_world "web/shop" ≡ (
  get_order "o1"
      ∷ create_order_cert "f"
      ∷ get_route "web" "shop"
      ∷ update_route updated
      ∷ delete_exposers "web" "u1"
      ∷ [],
  ok tt,
)
ready_order_installs_example =
    ready_order_installs ready_world "web/shop" refl route (cached ready _) (status ready "o1")
      (stored_status ready (status ready "o1")) missing_cert_key (pos 0)
      (uncertified ready (status ready "o1")) (client ready) (chosen ready (status ready "o1"))
      (order ready) updated (λ f h. refl) tt refl refl refl issued

-- The world in which the updated route is in the cache.
abbrev later : World
later = record (world_with (some updated) pending (observed route.meta (certified delayed))) {
  codec = record {
    decode = λ _. some (observed route.meta (certified delayed));
    encode_yaml = λ _. some "later";
    encode_json = λ _. some "json";
  };
}

cached_updated : IsReached later "web/shop" updated
unfolding is_managed is_temporary lookup is_admitted
cached_updated = record { found = refl; alive = refl; managed = refl; admitted = refl }

healthy_updated : needs_cert_key later.x509 (pos 10) updated ≡ ok (no_reason, pos 50)
unfolding needs_cert_key certificate needs_renewal is_valid time_sub proactive_renewal_threshold
    big_endian_uint64 quot ◌-ℤ◌ ◌+ℤ◌
healthy_updated = refl

installed_certificate_rests_example :
    sync later "web/shop"
    ≡ (add_after "web/shop" (pos 50) ∷ patch_status "web" "shop" "json" ∷ [], ok tt)
unfolding update_status set_status insert issued dict_eq ◌>>=◌
installed_certificate_rests_example =
    installed_certificate_rests ready_world (client ready) route (order ready) delayed updated
      issued later "web/shop" refl cached_updated (λ text h. refl) (pos 50) healthy_updated

needed_certificate_ordered_example :
    sync (world pending (status none_yet "")) "web/shop"
    ≡ (authorize_order "shop.example" ∷ patch_status "web" "shop" "json" ∷ [], ok tt)
unfolding lookup
needed_certificate_ordered_example =
    needed_certificate_ordered (world pending (status none_yet "")) "web/shop" refl route
      (cached pending _) (status none_yet "") (stored_status pending (status none_yet ""))
      missing_cert_key (pos 0) (uncertified pending (status none_yet "")) (client pending)
      (chosen pending (status none_yet "")) (record (order pending) { authz_urls = [] }) "yaml"
      "json" (λ h. cc h) tt refl (refl, refl) (λ h. cc h)

abbrev waiting : World
waiting = world pending (status pending "o1")

exposed :
    IsExposed waiting route (exposure waiting (client pending) "web/shop" route challenge "answer")
unfolding exposure exposure_id check_exposer is_admitted is_available adjust_container
    exposer_resources validate_exposed_token lookup
exposed = record {
  exposer_route = record route { meta = replica_set.meta };
  has_route = refl;
  owns_route = refl;
  admitted = refl;
  secret = record { meta = replica_set.meta; type = ""; contents = ("tls.key", "key") ∷ [] };
  has_secret = refl;
  owns_secret = refl;
  ranges = [];
  has_ranges = refl;
  adjusted = refl;
  replica_set = replica_set;
  has_replica_set = refl;
  owns_replica_set = refl;
  available = refl;
  service = record { meta = replica_set.meta; selector = []; port = 80; target_port = 5000 };
  has_service = refl;
  owns_service = refl;
  validated = refl;
}

exposed_challenge_accepted_example : sync waiting "web/shop" ≡ (
  get_order "o1"
      ∷ get_authorization "a1"
      ∷ accept challenge
      ∷ add_after "web/shop" (pos 15_000_000_000)
      ∷ patch_status "web" "shop" "json"
      ∷ [],
  ok tt,
)
unfolding update_status set_status insert dict_eq ◌>>=◌ http01_challenge
exposed_challenge_accepted_example =
    exposed_challenge_accepted waiting "web/shop" refl route (cached pending _)
      (status pending "o1") (stored_status pending (status pending "o1")) missing_cert_key (pos 0)
      (uncertified pending (status pending "o1")) (client pending)
      (chosen pending (status pending "o1")) (order pending) challenge "answer" tt refl refl refl
      (record {
        url = "a1";
        one_url = refl;
        authz = record { uri = "a1"; status = pending; challenges = challenge ∷ [] };
        authorized = refl;
        authz_pending = refl;
        offered = refl;
        challenge_pending = refl;
        answered = refl;
      })
      exposed refl
