-- ===== src/SecretSync.antt =====
-- pkg/controller/route/route.go, `syncRouteToSecret`: the copy of a route's key and certificate in a
-- secret, and `GetSyncSecretName` and `resolveControllerRef`.
pub mod Once
pub mod Written
use openshift_acme.Common.{
  String, Bool, true, false, not, Option, none, some, List, [], ◌∷◌, if◌then◌else◌, is_empty,
  str_eq, lookup, insert, ◌&&◌, dict_eq, pos,
}
use openshift_acme.Errors.{Result, ok, err, external}
use openshift_acme.Kube.{Route, Secret, ObjectMeta, OwnerReference, TlsConfig, Time}
use openshift_acme.Kube.Key
use openshift_acme.Effects.{
  Eff, pure, fail, lift, call, act, ◌>>=◌, ◌>>◌, create_secret, update_secret, event,
}
use openshift_acme.World.{World}
use openshift_acme.Exposer.{controller_ref}
use openshift_acme.Reconcile.Sync.{is_deleted}

secret_name_or : Option String → String → Option String
secret_name_or none route_name = none
secret_name_or (some name) route_name = if is_empty name then some route_name else some name

-- `GetSyncSecretName`
unfoldable pub get_sync_secret_name : Route → Option String
unfolding secret_name_or
get_sync_secret_name route =
    secret_name_or (lookup Key.secret_name route.meta.annotations) route.meta.name

same_uid : String → Result Route → Option Route
same_uid uid (err e) = none
same_uid uid (ok route) = if not (str_eq route.meta.uid uid) then none else some route

-- `resolveControllerRef`
unfoldable pub resolve_controller_ref : World → String → OwnerReference → Option Route
unfolding same_uid
resolve_controller_ref w namespace ref =
    if not (str_eq ref.kind "Route")
    then none
    else same_uid ref.uid (w.caches.route namespace ref.name)

same_owner : OwnerReference → OwnerReference → Bool
same_owner a b =
    str_eq a.kind b.kind
    && (str_eq a.name b.name && (str_eq a.uid b.uid && same_flag a.controller b.controller))
  where
    same_flag : Bool → Bool → Bool
    same_flag true flag = flag
    same_flag false flag = not flag

same_owners : List OwnerReference → List OwnerReference → Bool
unfolding same_owner
same_owners [] [] = true
same_owners (a ∷ as') (b ∷ bs) = same_owner a b && same_owners as' bs
same_owners _ _ = false

-- `reflect.DeepEqual` of two secrets that differ at most where the function writes.
unfoldable pub same_secret : Secret → Secret → Bool
unfolding same_owners
same_secret a b =
    str_eq a.type b.type
    && (same_owners a.meta.owner_references b.meta.owner_references
        && dict_eq a.contents b.contents)

-- The secret with the type, the owner and the entries that the function sets.
unfoldable pub filled : Route → TlsConfig → Secret → Secret
filled route tls secret = record {
  meta = record (secret.meta) { owner_references = controller_ref route.meta ∷ [] };
  type = "kubernetes.io/tls";
  contents = insert "tls.key" tls.key (insert "tls.crt" tls.certificate secret.contents);
}

-- `&corev1.Secret{ObjectMeta: metav1.ObjectMeta{Name: secretName}}`
abbrev pub new_secret : String → Secret
new_secret name = record {
  meta = record {
    name = name;
    namespace = "";
    uid = "";
    resource_version = "";
    generation = 0;
    creation_timestamp = pos 0;
    deletion_timestamp = none;
    labels = [];
    annotations = [];
    owner_references = [];
  };
  type = "";
  contents = [];
}

module _ (w : World) (key : String) (route : Route) (tls : TlsConfig) where
  unfoldable pub colliding : Eff (Unit {0})
  colliding = do
    act (event "CollidingSecret")
    fail (external "secret already exists and isn't owned by the route")

  unfoldable pub create_copy : String → Eff (Unit {0})
  create_copy name = do
    let secret = filled route tls (new_secret name)
    call (create_secret secret) (w.api.create_secret secret)
    pure tt

  unfoldable pub update_copy : Secret → Eff (Unit {0})
  update_copy old =
      let secret = filled route tls old in
      if same_secret secret old
      then pure tt
      else do call (update_secret secret) (w.api.update_secret secret); pure tt

  unfoldable pub update_resolved : Option Route → Secret → Eff (Unit {0})
  unfolding colliding
  update_resolved none old = colliding
  update_resolved (some owner) old = update_copy old

  unfoldable pub update_controlled : Option OwnerReference → Secret → Eff (Unit {0})
  unfolding update_resolved
  update_controlled none old = colliding
  update_controlled (some ref) old =
      update_resolved (resolve_controller_ref w route.meta.namespace ref) old

  unfoldable pub write_copy : String → Option Secret → Eff (Unit {0})
  unfolding create_copy update_controlled
  write_copy name none = create_copy name
  write_copy name (some old) = update_controlled (w.packages.get_controller_of old.meta) old

module _ (w : World) (key : String) (route : Route) where
  unfoldable pub copy_named : TlsConfig → Option String → Eff (Unit {0})
  copy_named tls none = pure tt
  copy_named tls (some name) = do
    found ← lift (w.caches.secret_by_key key)
    write_copy w key route tls name found

  unfoldable pub copy_tls : Option TlsConfig → Eff (Unit {0})
  unfolding copy_named
  copy_tls none = pure tt
  copy_tls (some tls) = copy_named tls (get_sync_secret_name route)

  unfoldable pub copy_route : Eff (Unit {0})
  unfolding copy_tls
  copy_route = if is_deleted route.meta.deletion_timestamp then pure tt else copy_tls route.tls

unfoldable pub copy_found : World → String → Option Route → Eff (Unit {0})
copy_found w key none = pure tt
copy_found w key (some route) = copy_route w key route

unfoldable pub sync_route_to_secret : World → String → Eff (Unit {0})
unfolding copy_found
sync_route_to_secret w key = do
  parts ← lift (w.packages.split_key key)
  found ← lift (w.caches.route_by_key key)
  copy_found w key found
