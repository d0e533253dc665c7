-- ===== src/Reconcile/Reached.antt =====
-- Which routes `sync` acts on, and a rule for what all actions of `sync` satisfy.
use openshift_acme.Common.{String, ◌≡◌, refl, Bool, true, false, not, Option, none, some, is_empty}
use openshift_acme.Errors.{Result, ok, err}
use openshift_acme.Kube.{Route, Duration, Time}
use openshift_acme.Kube.Managed.{is_managed}
use openshift_acme.Kube.Admitted.{is_admitted}
use openshift_acme.Acme.{
  AcmeStatus, none_yet, pending, processing, ready, invalid, expired, revoked, deactivated, Order,
  Client,
}
use openshift_acme.Effects.{
  Action, pure, lift, act, Only, Only-bind, Only-lift, Only-pure, Only-if, Only-act, add_after,
  patch_status, authorize_order, get_order,
}
use openshift_acme.Status.{Status, update_status}
use openshift_acme.Renewal.{Reason, no_reason}
use openshift_acme.World.{World}
use openshift_acme.Reconcile.Order.{save, step_order}
use openshift_acme.Reconcile.ClientFor.{client_for}
use openshift_acme.Reconcile.Acceptance.{only_rules}
use openshift_acme.Reconcile.Sync.{
  create_order, with_order, continue_order, order_step, retry_failed, provision, rest_until,
  healthy, decide, is_deleted, sync_managed, sync_found, sync,
}

-- The route with the key is in the cache, is not being deleted, is managed, and is admitted.
pub record IsReached (w : World) (key : String) (route : Route) : Type 0 where
  pub found : w.caches.route_by_key key ≡ ok (some route)
  pub alive : route.meta.deletion_timestamp ≡ none
  pub managed : is_managed route.meta w.config.annotation ≡ true
  pub admitted : is_admitted route ≡ true

pub none_of_not : (t : Option Time) → is_deleted t ≡ false → t ≡ none
unfolding is_deleted
none_of_not none h = refl
none_of_not (some t) h = cc

true_of_not : (b : Bool) → not b ≡ false → b ≡ true
true_of_not true h = refl
true_of_not false h = cc

-- The predicate holds of the actions that `sync` may make for its book-keeping.
pub record AllowsBooks (P : Action → Type 0) (key : String) : Type 0 where
  pub later : (d : Duration) → P (add_after key d)
  pub patched : (ns name text : String) → P (patch_status ns name text)
  pub asked : (uri : String) → P (get_order uri)

module _ {P : Action → Type 0} {key : String} (books : AllowsBooks P key) (w : World)
    (route : Route) where
  pub save-Only : (status : Status) → Only P (save w route status)
  unfolding update_status
  save-Only status = search (only_rules, books.patched)

  module _ (on_create : P (authorize_order route.host))
      (on_order : (client : Client) (status : Status) (order : Order)
        → client_for w route ≡ ok client
        → client.get_order status.provisioning.order_uri ≡ ok order
        → Only P (
            step_order w client key route order.status status.provisioning.order_status
              (record status {
                provisioning = record (status.provisioning) { order_status = order.status };
              })
              (record order { uri = status.provisioning.order_uri }))) where
    create_order-Only :
        (client : Client) (status : Status) → Only P (create_order w client key route status)
    unfolding create_order
    create_order-Only client status = search (only_rules, save-Only, on_create)

    with_order-Only :
        (client : Client) (status : Status) (r : Result Order)
        → client_for w route ≡ ok client
        → client.get_order status.provisioning.order_uri ≡ r
        → Only P (with_order w client key route status r)
    unfolding with_order
    with_order-Only client status (ok order) chosen e = on_order client status order chosen e
    with_order-Only client status (err x) chosen e = search (only_rules, save-Only)

    continue_order-Only :
        (client : Client) (status : Status)
        → client_for w route ≡ ok client
        → Only P (continue_order w client key route status)
    unfolding continue_order
    continue_order-Only client status chosen =
        Only-bind (act (get_order status.provisioning.order_uri)) _ (Only-act _ (books.asked _))
          (λ _ _. with_order-Only client status _ chosen refl)

    order_step-Only : (status : Status) → Only P (order_step w key route status)
    unfolding order_step
    order_step-Only status = Only-bind (lift (client_for w route)) _ (Only-lift _) (λ client chosen.
        Only-if (is_empty status.provisioning.order_uri) (create_order w client key route status)
          (continue_order w client key route status) (λ _. create_order-Only client status)
          (λ _. continue_order-Only client status chosen))

    retry_failed-Only : (status : Status) → Only P (retry_failed w key route status)
    unfolding retry_failed
    retry_failed-Only status = search (only_rules, save-Only, books.later, order_step-Only)

    provision-Only : (s : AcmeStatus) (status : Status) → Only P (provision w key route s status)
    unfolding provision
    provision-Only none_yet status = order_step-Only _
    provision-Only invalid status = retry_failed-Only status
    provision-Only expired status = retry_failed-Only status
    provision-Only revoked status = retry_failed-Only status
    provision-Only deactivated status = retry_failed-Only status
    provision-Only _ status = order_step-Only _

    rest_until-Only : (d : Duration) (status : Status) → Only P (rest_until w key route d status)
    unfolding rest_until
    rest_until-Only d status = search (only_rules, save-Only, books.later)

    healthy-Only :
        (d : Duration) (s : AcmeStatus) (status : Status) → Only P (healthy w key route d s status)
    unfolding healthy
    healthy-Only d pending status = provision-Only pending status
    healthy-Only d processing status = provision-Only processing status
    healthy-Only d ready status = provision-Only ready status
    healthy-Only d _ status = rest_until-Only d status

    decide-Only :
        (r : Reason) (d : Duration) (status : Status) → Only P (decide w key route r d status)
    unfolding decide
    decide-Only no_reason d status = healthy-Only d _ status
    decide-Only _ d status = provision-Only _ status

    pub sync_managed-Only : Only P (sync_managed w key route)
    unfolding sync_managed
    sync_managed-Only =
        Only-bind _ _ (Only-lift _)
          (λ status _. Only-bind _ _ (Only-lift _) (λ r _. decide-Only r.0 r.1 _))

sync_found-Only :
    (P : Action → Type 0) (w : World) (key : String) (route : Route)
    → (route.meta.deletion_timestamp ≡ none
        → is_managed route.meta w.config.annotation ≡ true
        → is_admitted route ≡ true
        → Only P (sync_managed w key route))
    → Only P (sync_found w key (some route))
unfolding sync_found
sync_found-Only P w key route h =
    Only-if (is_deleted route.meta.deletion_timestamp) (pure tt) _ (λ _. Only-pure tt)
      (λ alive.
        Only-if (not (is_managed route.meta w.config.annotation)) (pure tt) _ (λ _. Only-pure tt)
          (λ managed.
            Only-if (not (is_admitted route)) (pure tt) (sync_managed w key route)
              (λ _. Only-pure tt)
              (λ admitted.
                h (none_of_not _ alive) (true_of_not _ managed) (true_of_not _ admitted))))

-- All actions of `sync` satisfy a predicate if those of `sync_managed` do for each route that is
-- reached.
pub sync-Only :
    (P : Action → Type 0) (w : World) (key : String)
    → ((route : Route) → IsReached w key route → Only P (sync_managed w key route))
    → Only P (sync w key)
unfolding sync
sync-Only P w key h =
    Only-bind (lift (w.packages.split_key key)) _ (Only-lift _)
      (λ _ _. Only-bind (lift (w.caches.route_by_key key)) _ (Only-lift _) (λ found e. go found e))
  where
    go :
        (found : Option Route)
        → w.caches.route_by_key key ≡ ok found
        → Only P (sync_found w key found)
    go none e = unfold sync_found in Only-pure tt
    go (some route) e = sync_found-Only P w key route (λ alive managed admitted.
        h route (record { found = e; alive = alive; managed = managed; admitted = admitted }))
