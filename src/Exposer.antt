-- ===== src/Exposer.antt =====
-- pkg/controller/route/route.go: the objects that expose the token of a challenge, as `sync` builds
-- them.
pub mod Isolation
use openshift_acme.Common.{
  ◌*◌, String, Bool, true, false, Option, none, some, [], ◌∷◌, if◌then◌else◌, is_empty, pos, codes,
  of_codes, Dict, lookup, insert, delete, delete_where,
}
use Prim.Native.String.{◌++◌ as ◌+++◌}
use openshift_acme.Kube.{Route, Secret, ObjectMeta, OwnerReference}
use openshift_acme.Kube.Key
use openshift_acme.Kube.Workloads.{
  Resources, ReplicaSet, Service, PodSecurityContext, SecurityContext,
}
use openshift_acme.TemporaryName.{temporary_name}
use openshift_acme.World.{World}

-- `filterOutAnnotations` and `filterOutLabels`: the map without the keys that the expression matches;
-- an expression that is missing, empty or invalid drops nothing.
dropped : Option (String → Bool) → Dict String → Dict String
dropped none m = m
dropped (some matches) m = delete_where matches m

module _ (compile : String → Option (String → Bool)) where
  filtered : Option String → Dict String → Dict String
  unfolding dropped
  filtered none m = m
  filtered (some regex) m = if is_empty regex then m else dropped (compile regex) m

  unfoldable pub filter_out_annotations : Dict String → Dict String
  unfolding filtered
  filter_out_annotations annotations =
      let kept = delete "haproxy.router.openshift.io/ip_whitelist" annotations in
      filtered (lookup Key.filter_out_annotations kept) kept

  unfoldable pub filter_out_labels : Dict String → Dict String → Dict String
  unfolding filtered
  filter_out_labels labels annotations = filtered (lookup Key.filter_out_labels annotations) labels

abbrev pub controller_ref : ObjectMeta → OwnerReference
controller_ref owner = record {
  kind = "Route";
  name = owner.name;
  uid = owner.uid;
  controller = true;
}

-- The texts that an exposer is made of: the id, the name, the key of the route in the queue, the path
-- of the challenge and the response.
pub record Exposure : Type 0 where
  pub id : String
  pub name : String
  pub key : String
  pub path : String
  pub response : String

unfoldable pub exposure_id : String → String → String
exposure_id host path = host +++ (":" +++ path)

unfoldable pub temporary_name_of : World → String → String
temporary_name_of w id = of_codes (temporary_name w.x509.sum256 (codes id))

abbrev pub exposer_pod_security_context : PodSecurityContext
exposer_pod_security_context = record { run_as_non_root = true; seccomp_profile = "RuntimeDefault" }

abbrev pub exposer_container_security_context : SecurityContext
exposer_container_security_context = record {
  allow_privilege_escalation = false;
  read_only_root_filesystem = true;
  drop = "ALL" ∷ [];
}

module _ (w : World) (route : Route) (e : Exposure) where
  unfoldable pub desired_route : Route
  desired_route =
      let kept = filter_out_annotations w.packages.matches route.meta.annotations in
      let labels = filter_out_labels w.packages.matches route.meta.labels kept in
      record route {
        meta = record (route.meta) {
          name = e.name;
          resource_version = "";
          owner_references = controller_ref route.meta ∷ [];
          annotations = insert Key.exposer_key e.key (insert Key.exposer_id e.id kept);
          labels = insert Key.exposer_uid route.meta.uid (insert Key.temporary "true" labels);
        };
        path = e.path;
        port = none;
        tls = some (record {
          termination = "edge";
          insecure_policy = "Allow";
          key = "";
          certificate = "";
        });
        to_kind = "Service";
        to_name = e.name;
      }

  -- The metadata of the objects that the exposer route owns.
  unfoldable pub owned_meta : ObjectMeta → ObjectMeta
  owned_meta exposer_route = record {
    name = e.name;
    namespace = "";
    uid = "";
    resource_version = "";
    generation = 0;
    creation_timestamp = pos 0;
    deletion_timestamp = none;
    labels = (Key.temporary, "true") ∷ (Key.exposer_uid, route.meta.uid) ∷ [];
    annotations = (Key.exposer_id, e.id) ∷ (Key.exposer_key, e.key) ∷ [];
    owner_references = controller_ref exposer_route ∷ [];
  }

  unfoldable pub desired_secret : ObjectMeta → Secret
  unfolding owned_meta
  desired_secret exposer_route = record {
    meta = owned_meta exposer_route;
    type = "";
    contents = ("exposer-file", e.path +++ (" " +++ e.response)) ∷ [];
  }

  abbrev pod_labels : Dict String
  pod_labels = ("app", e.name) ∷ []

  unfoldable pub exposer_resources : Resources
  exposer_resources =
      let memory = w.quantities.binary_quantity (50 * (1024 * 1024)) in
      record {
        requests = ("cpu", w.quantities.milli_quantity 5) ∷ ("memory", memory) ∷ [];
        limits = ("cpu", w.quantities.milli_quantity 100) ∷ ("memory", memory) ∷ [];
      }

  unfoldable pub desired_replica_set : ObjectMeta → String → Resources → ReplicaSet
  unfolding owned_meta
  desired_replica_set exposer_route secret_name resources = record {
    meta = owned_meta exposer_route;
    replicas = 2;
    pod_labels = pod_labels;
    image = w.config.exposer_image;
    args = "--response-file=/etc/openshift-acme-exposer/exposer-file" ∷ [];
    container_port = 5000;
    secret_name = secret_name;
    resources = resources;
    pod_security_context = exposer_pod_security_context;
    security_context = exposer_container_security_context;
    observed_generation = 0;
    status_replicas = 0;
    available_replicas = 0;
  }

  unfoldable pub desired_service : ObjectMeta → Service
  unfolding owned_meta
  desired_service exposer_route = record {
    meta = owned_meta exposer_route;
    selector = pod_labels;
    port = 80;
    target_port = 5000;
  }
