-- ===== src/SecretSync/Written.antt =====
-- What the copies of a route's certificate hold.
use openshift_acme.Common.{
  ◌≤◌, String, ◌≡◌, ◌≢◌, refl, none, some, false, [], ◌∷◌, All, lookup, lookup-insert, Option,
  arith, eq_iff, eq_refl,
}
use openshift_acme.Errors.{ok}
use openshift_acme.Kube.{Route, Secret, TlsConfig, OwnerReference, Time}
use openshift_acme.Reconcile.Sync.{is_deleted}
use openshift_acme.Effects.{
  Action, create_secret, update_secret, event, Only, Only-pure, Only-fail, Only-lift, Only-call,
  Only-if, Only-bind, Only-act,
}
use openshift_acme.World.{World}
use openshift_acme.Exposer.{controller_ref}
use openshift_acme.SecretSync.Once.{writes, sync-writes}
use openshift_acme.SecretSync.{
  get_sync_secret_name, resolve_controller_ref, sync_route_to_secret, filled, new_secret,
  update_controlled, update_copy, update_resolved, colliding, write_copy, create_copy, copy_named,
  copy_tls, copy_route, copy_found,
}

-- The secret holds the key and the certificate of the cached route, is owned by the route alone, and
-- the route asks for a copy.
pub record IsCopy (w : World) (key : String) (s : Secret) : Type 0 where
  pub route : Route
  pub found : w.caches.route_by_key key ≡ ok (some route)
  pub alive : route.meta.deletion_timestamp ≡ none
  pub tls : TlsConfig
  pub secured : route.tls ≡ some tls
  pub name : String
  pub asked : get_sync_secret_name route ≡ some name
  pub has_type : s.type ≡ "kubernetes.io/tls"
  pub has_key : lookup "tls.key" s.contents ≡ some tls.key
  pub has_certificate : lookup "tls.crt" s.contents ≡ some tls.certificate
  pub owned : s.meta.owner_references ≡ controller_ref route.meta ∷ []

-- The secret replaces a cached one, whose controller is an existing route, and only the type, the
-- owner and the two entries are set.
pub record IsReplacement (w : World) (key : String) (s : Secret) : Type 0 where
  pub old : Secret
  pub cached : w.caches.secret_by_key key ≡ ok (some old)
  pub ref : OwnerReference
  pub controlled : w.packages.get_controller_of old.meta ≡ some ref
  pub namespace : String
  pub owner : Route
  pub resolved : resolve_controller_ref w namespace ref ≡ some owner
  pub same_name : s.meta.name ≡ old.meta.name
  pub others :
      (entry : String)
      → entry ≢ "tls.key"
      → entry ≢ "tls.crt"
      → lookup entry s.contents ≡ lookup entry old.contents

not_deleted : (t : Option Time) → is_deleted t ≡ false → t ≡ none
unfolding is_deleted
not_deleted none h = refl
not_deleted (some t) h = cc

module _ (w : World) (key : String) where
  abbrev pub Copies : Action → Type 0
  Copies (create_secret s) =
      (c : IsCopy w key s) × (w.caches.secret_by_key key ≡ ok none) × (s.meta.name ≡ c.name)
  Copies (update_secret s) = IsCopy w key s × IsReplacement w key s
  Copies (event reason) = Unit
  Copies _ = ⊥

  module _ (route : Route) (tls : TlsConfig) (name : String)
      (found : w.caches.route_by_key key ≡ ok (some route))
      (alive : route.meta.deletion_timestamp ≡ none) (secured : route.tls ≡ some tls)
      (asked : get_sync_secret_name route ≡ some name) where
    filled-IsCopy : (s : Secret) → IsCopy w key (filled route tls s)
    unfolding filled
    filled-IsCopy s = record {
      route = route;
      found = found;
      alive = alive;
      tls = tls;
      secured = secured;
      name = name;
      asked = asked;
      has_type = refl;
      has_key = simp lookup-insert (ground (arith, eq_refl "tls.key"));
      has_certificate =
          simp lookup-insert (ground (arith, eq_iff "tls.key" "tls.crt", eq_refl "tls.crt"));
      owned = refl;
    }

    filled-others :
        (s : Secret) (entry : String)
        → entry ≢ "tls.key"
        → entry ≢ "tls.crt"
        → lookup entry (filled route tls s).contents ≡ lookup entry s.contents
    unfolding filled
    filled-others s entry h k =
        simp lookup-insert (ground (arith, eq_iff "tls.key" entry, eq_iff "tls.crt" entry, h, k))

    colliding-Only : Only Copies (colliding w key route tls)
    unfolding colliding
    colliding-Only = Only-bind _ _ (Only-act (event "CollidingSecret") tt) (λ u e. Only-fail _)

    update_copy-Only :
        (old : Secret)
        → IsReplacement w key (filled route tls old)
        → Only Copies (update_copy w key route tls old)
    unfolding update_copy
    update_copy-Only old h =
        Only-if _ _ _ (λ same. Only-pure tt)
          (λ differs.
            let updated = filled route tls old in
            let called =
              Only-call (update_secret updated) (w.api.update_secret updated)
                (filled-IsCopy old, h) in
            Only-bind _ _ called (λ s e. Only-pure tt))

    update_resolved-Only :
        (owner : Option Route) (ref : OwnerReference) (old : Secret)
        → w.caches.secret_by_key key ≡ ok (some old)
        → w.packages.get_controller_of old.meta ≡ some ref
        → resolve_controller_ref w route.meta.namespace ref ≡ owner
        → Only Copies (update_resolved w key route tls owner old)
    unfolding update_resolved filled
    update_resolved-Only none ref old cached controlled resolved = colliding-Only
    update_resolved-Only (some owner) ref old cached controlled resolved =
        update_copy-Only old (record {
          old = old;
          cached = cached;
          ref = ref;
          controlled = controlled;
          namespace = route.meta.namespace;
          owner = owner;
          resolved = resolved;
          same_name = refl;
          others = filled-others old;
        })

    update_controlled-Only :
        (ref : Option OwnerReference) (old : Secret)
        → w.caches.secret_by_key key ≡ ok (some old)
        → w.packages.get_controller_of old.meta ≡ ref
        → Only Copies (update_controlled w key route tls ref old)
    unfolding update_controlled
    update_controlled-Only none old cached controlled = colliding-Only
    update_controlled-Only (some ref) old cached controlled =
        update_resolved-Only _ ref old cached controlled refl

    write_copy-Only :
        (s : Option Secret)
        → w.caches.secret_by_key key ≡ ok s
        → Only Copies (write_copy w key route tls name s)
    unfolding write_copy create_copy filled filled-IsCopy
    write_copy-Only none e =
        let created = filled route tls (new_secret name) in
        let named : created.meta.name ≡ name = refl in
        let called =
          Only-call (create_secret created) (w.api.create_secret created)
            (filled-IsCopy (new_secret name), e, named) in
        Only-bind _ _ called (λ s e'. Only-pure tt)
    write_copy-Only (some old) e = update_controlled-Only _ old e refl

  copy_named-Only :
      (route : Route) (tls : TlsConfig) (name : Option String)
      → w.caches.route_by_key key ≡ ok (some route)
      → route.meta.deletion_timestamp ≡ none
      → route.tls ≡ some tls
      → get_sync_secret_name route ≡ name
      → Only Copies (copy_named w key route tls name)
  unfolding copy_named
  copy_named-Only route tls none found alive secured asked = Only-pure tt
  copy_named-Only route tls (some name) found alive secured asked =
      Only-bind _ _ (Only-lift (w.caches.secret_by_key key))
        (λ s e. write_copy-Only route tls name found alive secured asked s e)

  copy_tls-Only :
      (route : Route) (tls : Option TlsConfig)
      → w.caches.route_by_key key ≡ ok (some route)
      → route.meta.deletion_timestamp ≡ none
      → route.tls ≡ tls
      → Only Copies (copy_tls w key route tls)
  unfolding copy_tls
  copy_tls-Only route none found alive secured = Only-pure tt
  copy_tls-Only route (some tls) found alive secured =
      copy_named-Only route tls _ found alive secured refl

  copy_found-Only :
      (route : Option Route)
      → w.caches.route_by_key key ≡ ok route
      → Only Copies (copy_found w key route)
  unfolding copy_found copy_route
  copy_found-Only none found = Only-pure tt
  copy_found-Only (some route) found =
      Only-if _ _ _ (λ gone. Only-pure tt)
        (λ alive. copy_tls-Only route route.tls found (not_deleted _ alive) refl)

  copied : Only Copies (sync_route_to_secret w key)
  unfolding sync_route_to_secret
  copied =
      Only-bind _ _ (Only-lift (w.packages.split_key key))
        (λ parts e. Only-bind _ _ (Only-lift (w.caches.route_by_key key)) copy_found-Only)

  -- A synchronization of a route to a secret makes at most one call that creates or updates a secret,
  -- and no other call; it may record events. What it writes holds the key and the certificate of the
  -- cached route under `tls.key` and `tls.crt`, with the type of TLS secrets and the route as its only
  -- owner, for a route that is not being deleted and asks for a copy. A secret is created only if none
  -- is cached under the route's key, with the name that the route asks for. A secret is updated only
  -- if the controller of the cached one is an existing route; its name and all other entries stay.
  pub secret_holds_route_certificate :
      (writes (sync_route_to_secret w key).0 ≤ 1) × All Copies (sync_route_to_secret w key).0
  secret_holds_route_certificate = (sync-writes w key, copied.actions)
