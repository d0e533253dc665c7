-- ===== src/Options.antt =====
-- pkg/cmd/openshift-acme-controller/openshift-acme-controller.go: the options of the controller, and what
-- the command does with them before `Run`.
pub mod Namespaces
pub mod PreRun
pub mod Image
use openshift_acme.Common.{
  ℕ, ◌+◌, ◌*◌, pos, String, Bool, not, List, [], ◌∷◌, ◌++◌, if◌then◌else◌, is_empty, ◌==◌, true,
  false, str_eq,
}
use openshift_acme.Errors.{Result, ok, err, ◌>>=◌, invalid_namespaces, missing_exposer_image}
use openshift_acme.Kube.{Duration}
use openshift_acme.Informers.{contains}

pub record Options : Type 0 where
  pub annotation : String
  pub workers : ℕ
  pub kubeconfig : String
  pub controller_namespace : String
  pub namespaces : List String
  pub leaderelection_lease_duration : Duration
  pub leaderelection_renew_deadline : Duration
  pub leaderelection_retry_period : Duration
  pub cert_order_backoff_initial : Duration
  pub cert_order_backoff_max : Duration
  pub cert_default_rsa_key_bit_size : ℕ
  pub cert_default_profile : String
  pub acme_order_timeout : Duration
  pub exposer_image : String

seconds : ℕ → Duration
seconds n = pos (n * 1_000_000_000)

-- `NewOptions`
unfoldable pub new_options : Options
unfolding seconds
new_options = record {
  annotation = "kubernetes.io/tls-acme";
  workers = 50;
  kubeconfig = "";
  controller_namespace = "";
  namespaces = "" ∷ [];
  leaderelection_lease_duration = seconds 60;
  leaderelection_renew_deadline = seconds 35;
  leaderelection_retry_period = seconds 10;
  cert_order_backoff_initial = seconds (5 * 60);
  cert_order_backoff_max = seconds (24 * 60 * 60);
  cert_default_rsa_key_bit_size = 4096;
  cert_default_profile = "";
  acme_order_timeout = seconds (15 * 60);
  exposer_image = "ghcr.io/gordon-code/openshift-acme-exposer:latest";
}

-- What `Complete` calls: the configuration of a file and that inside of a cluster, the file with the
-- namespace, and the constructors of the clients.
pub record Environment (C : Type 0) : Type 0 where
  pub load_config : String → Result C
  pub in_cluster_config : Result C
  pub read_file : String → Result String
  pub new_kube_client : C → Result (Unit {0})
  pub new_route_client : C → Result (Unit {0})

-- `ValidateNamespaceName` gives the messages on a name.
module _ (validate_name : String → List String) where
  unfoldable pub is_refused : List String → Bool
  is_refused [] = false
  is_refused (message ∷ messages) = true

  -- The number of the namespaces that are refused.
  unfoldable pub refused_namespaces : List String → ℕ
  unfolding is_refused
  refused_namespaces [] = 0
  refused_namespaces (n ∷ ns) =
      (if str_eq n "" then 0 else if is_refused (validate_name n) then 1 else 0)
      + refused_namespaces ns

  unfoldable pub validate : Options → Result (Unit {0})
  validate o =
      if not (refused_namespaces o.namespaces == 0)
      then err (invalid_namespaces (refused_namespaces o.namespaces))
      else if is_empty o.exposer_image
      then err missing_exposer_image
      else ok tt

-- The loop over the namespaces, with those that it has seen.
unfoldable pub unique : List String → List String → List String
unique seen [] = []
unique seen (n ∷ ns) =
    let again = unique seen ns in
    let first = n ∷ unique (n ∷ seen) ns in if contains seen n then again else first

unfoldable pub complete_namespaces : String → List String → List String
complete_namespaces controller [] = "" ∷ []
complete_namespaces controller (n ∷ ns) = unique [] ((n ∷ ns) ++ controller ∷ [])

module _ {C : Type 0} (env : Environment C) where
  unfoldable pub complete : Options → Result Options
  complete o = do
    config ←
        if not (is_empty o.kubeconfig) then env.load_config o.kubeconfig else env.in_cluster_config
    controller ←
        if is_empty o.controller_namespace
        then env.read_file "/var/run/secrets/kubernetes.io/serviceaccount/namespace"
        else ok o.controller_namespace
    kube ← env.new_kube_client config
    route ← env.new_route_client config
    ok (record o {
      controller_namespace = controller;
      namespaces = complete_namespaces controller o.namespaces;
    })

-- `RunE`, up to `Run`.
unfoldable pub run_e :
    {C : Type 0} → (String → List String) → Environment C → Options → Result Options
run_e validate_name env o = do valid ← validate validate_name o; complete env o
