-- ===== src/Reconcile/Sample.antt =====
-- A small world for the tests: one route with a pending order, whose token is served.
use openshift_acme.Common.{
  String, true, false, none, some, [], ◌∷◌, pos, codes, lookup, insert, dict_eq, of_codes, quot,
  ◌+ℤ◌, ◌-ℤ◌, ◌*ℤ◌, Option,
}
use openshift_acme.Errors.{ok, is_not_found}
use openshift_acme.Kube.{Route, ObjectMeta, ConfigMap}
use openshift_acme.Kube.Workloads.{ReplicaSet}
use openshift_acme.Cert.{X509, certificate, is_valid, new_certificate_from_der}
use openshift_acme.Acme.{AcmeStatus, pending, Client, Challenge, same_status}
use openshift_acme.Status.{Status, zero_status, get_status, set_status, update_status}
use openshift_acme.Issuer.{acme, issuer_for_object, issuer_config_maps}
use openshift_acme.Kube.Managed.{is_managed, is_temporary}
use openshift_acme.Kube.Admitted.{is_admitted}
use openshift_acme.Renewal.{
  needs_cert_key, needs_renewal, time_sub, proactive_renewal_threshold, big_endian_uint64,
}
use openshift_acme.Backoff.{order_backoff, wrap64}
use openshift_acme.Effects.{Eff, ignore_error, ◌>>=◌}
use openshift_acme.TemporaryName.{temporary_name}
use openshift_acme.LimitRanges.{adjust_container}
use openshift_acme.Token.{validate_exposed_token}
use openshift_acme.PrivateKey.{private_key_from_secret}
use openshift_acme.Strings.{trim_space}
use openshift_acme.Profile.{cert_profile_for_route}
use openshift_acme.Exposer.{
  exposer_pod_security_context, exposer_container_security_context, exposure_id, temporary_name_of,
  desired_route, desired_secret, desired_replica_set, desired_service, exposer_resources,
}
use openshift_acme.Reconcile.Expose.{
  expose, expose_with, ensure_route, ensure_secret, ensure_replica_set, ensure_service, ensure,
  check_exposer, accept_when_exposed, accept_if, is_available,
}
use openshift_acme.Reconcile.Order.{
  http01_challenge, cleanup_exposer_objects, count_failure, exposure, step_authz, authorize_all,
  store_certificate, finalize, step_order,
}
use openshift_acme.Reconcile.ClientFor.{client_for}
use openshift_acme.Reconcile.Sync.{
  create_order, continue_order, order_step, provision, decide, with_backoff, sync_managed,
  sync_found, sync,
}
use openshift_acme.World.{World}

abbrev meta : ObjectMeta
meta = record {
  name = "shop";
  namespace = "web";
  uid = "u1";
  resource_version = "7";
  generation = 2;
  creation_timestamp = pos 5;
  deletion_timestamp = none;
  labels = [];
  annotations = ("kubernetes.io/tls-acme", "true") ∷ ("acme.openshift.io/status", "stored") ∷ [];
  owner_references = [];
}

abbrev pub route : Route
route = record {
  meta = meta;
  host = "shop.example";
  path = "";
  port = none;
  tls = none;
  to_kind = "Service";
  to_name = "shop";
  ingress = (record { type = "Admitted"; status = "True" } ∷ []) ∷ [];
}

-- The metadata of the exposer objects, as the API server returns them.
abbrev exposer_meta : ObjectMeta
exposer_meta = record meta {
  annotations = ("acme.openshift.io/exposer-id", "shop.example:/challenge") ∷ [];
}

abbrev issuer_map : ConfigMap
issuer_map = record {
  meta = meta;
  contents = ("cert-issuer.types.acme.openshift.io", "issuer") ∷ [];
}

abbrev pub status : AcmeStatus → String → Status
status s uri = record zero_status {
  provisioning = record (zero_status.provisioning) { order_uri = uri; order_status = s };
}

abbrev pub challenge : Challenge
challenge = record { type = "http-01"; uri = "c1"; token = "t"; status = pending }

abbrev pub client : AcmeStatus → Client
client s = record {
  authorize_order =
      λ _. ok (record { uri = "o1"; status = pending; authz_urls = []; finalize_url = "f" });
  get_order =
      λ uri. ok (record { uri = uri; status = s; authz_urls = "a1" ∷ []; finalize_url = "f" });
  get_authorization =
      λ url. ok (record { uri = url; status = pending; challenges = challenge ∷ [] });
  challenge_path = λ _. "/challenge";
  challenge_response = λ _. ok "answer";
  accept = λ _. ok tt;
  create_order_cert = λ _ _. ok ((1 ∷ []) ∷ []);
}

abbrev x509 : X509
x509 = record {
  pem_decode = λ s. some (codes s);
  pem_encode = λ type block. type;
  parse_certificate = λ _. some (record { not_before = pos 0; not_after = pos 90; raw = [] });
  marshal_key = λ k. k;
  verify_hostname = λ _ _. true;
  sum256 = λ bs. bs;
}

abbrev pub replica_set : ReplicaSet
replica_set = record {
  meta = exposer_meta;
  replicas = 2;
  pod_labels = [];
  image = "";
  args = [];
  container_port = 5000;
  secret_name = "";
  resources = record { requests = []; limits = [] };
  pod_security_context = exposer_pod_security_context;
  security_context = exposer_container_security_context;
  observed_generation = 2;
  status_replicas = 2;
  available_replicas = 2;
}

-- The world with a cached route, in which the server reports an order with a status, and the annotation of the route holds
-- a status.
abbrev pub world_with : Option Route → AcmeStatus → Status → World
world_with cached reported stored = record {
  config = record {
    annotation = "kubernetes.io/tls-acme";
    cert_order_backoff_initial = pos 300;
    cert_order_backoff_max = pos 86400;
    cert_default_profile = "";
    exposer_image = "image";
    controller_namespace = "acme";
  };
  caches = record {
    route_by_key = λ _. ok cached;
    secret_by_key = λ _. ok none;
    route = λ _ _. ok (record route { meta = exposer_meta });
    secret =
        λ _ _. ok (record { meta = exposer_meta; type = ""; contents = ("tls.key", "key") ∷ [] });
    replica_set = λ _ _. ok replica_set;
    service =
        λ _ _. ok (record { meta = exposer_meta; selector = []; port = 80; target_port = 5000 });
    limit_ranges = λ _. ok [];
    issuers = record {
      config_map = λ _ _. ok issuer_map;
      labelled = λ _. ok (issuer_map ∷ []);
      secret = λ _ _. ok (record { meta = meta; type = ""; contents = ("tls.key", "key") ∷ [] });
      decode_issuer = λ _. some (record {
        secret_name = "account";
        type = acme;
        acme_cert_issuer = some (record {
          directory_url = "https://ca.example";
          account = record {
            contacts = [];
            status = record { hash = ""; uri = ""; account_status = ""; orders_url = "" };
          };
        });
      });
      sort_slice = λ _ cms. cms;
    };
  };
  api = record {
    patch_status = λ _. ok tt;
    create_route = λ r. ok r;
    create_secret = λ s. ok s;
    update_secret = λ s. ok s;
    create_replica_set = λ r. ok r;
    create_service = λ s. ok s;
    get_route = λ _ _ _. ok route;
    update_route = λ _ _. ok tt;
    delete_exposers = λ _ _. ok tt;
  };
  packages = record {
    is_controlled_by = λ _ _. true;
    get_controller_of = λ _. none;
    split_key = λ _. ok ("web", "shop");
    retry_on_conflict = λ f. f 0;
    matches = λ _. none;
    generate_key = ok (1 ∷ []);
    parse_key = λ k. some k;
    create_csr = λ k _. ok k;
  };
  clock = record { at_check = pos 10; at_delay = pos 11; at_order = pos 12 };
  x509 = x509;
  codec = record {
    decode = λ _. some stored;
    encode_yaml = λ _. some "yaml";
    encode_json = λ _. some "json";
  };
  quantities = record {
    less = λ _ _. false;
    more = λ _ _. false;
    milli_value = λ _. pos 0;
    from_milli = λ _. record { text = "" };
    milli_quantity = λ _. record { text = "" };
    binary_quantity = λ _. record { text = "" };
  };
  acme = λ _. client reported;
  http_get = λ _. ok (record { status_code = 200; first_read = λ size. ok (codes "answer") });
}

abbrev pub world : AcmeStatus → Status → World
world = world_with (some route)

-- The route with a certificate for the 90 ns from time 0 on.
abbrev pub secured : Route
secured = record route {
  tls = some (record {
    termination = "edge";
    insecure_policy = "Redirect";
    key = "key";
    certificate = "crt";
  });
}

-- What a reconciliation of the sample route does; opening this opens the whole path.
unfoldable pub run : AcmeStatus → Status → Eff (Unit {0})
unfolding sync sync_found is_managed is_temporary lookup is_admitted sync_managed get_status
    needs_cert_key needs_renewal certificate is_valid time_sub proactive_renewal_threshold
    big_endian_uint64 quot decide provision with_backoff order_backoff wrap64 order_step client_for
    issuer_for_object issuer_config_maps private_key_from_secret cert_profile_for_route trim_space
    continue_order create_order step_order same_status count_failure authorize_all step_authz
    http01_challenge exposure exposure_id temporary_name_of temporary_name of_codes expose
    expose_with ensure_route ensure_secret ensure_replica_set ensure_service ensure check_exposer
    adjust_container exposer_resources desired_route desired_secret desired_replica_set
    desired_service accept_when_exposed accept_if is_available validate_exposed_token finalize
    store_certificate set_status update_status dict_eq insert cleanup_exposer_objects
    new_certificate_from_der ignore_error is_not_found ◌>>=◌ ◌+ℤ◌ ◌-ℤ◌ ◌*ℤ◌
run reported stored = sync (world reported stored) "web/shop"
