-- ===== src/Reconcile/Authorized.antt =====
-- Why the challenges of an order's authorizations are accepted.
use openshift_acme.Common.{
  String, ◌≡◌, refl, sym, Option, none, some, List, [], ◌∷◌, inl, inr, eq_iff, arith, str_eq,
  if◌then◌else◌, ◌⊎◌,
}
use openshift_acme.Errors.{ok}
use openshift_acme.Kube.{Route}
use openshift_acme.Acme.{
  AcmeStatus, pending, processing, valid, invalid, expired, revoked, deactivated, Authorization,
  Order, Client, Challenge,
}
use openshift_acme.Effects.{
  Action, Eff, lift, call, Only, Only-bind, Only-call, Only-lift, Only-pure, Only-fail, Only-mono,
  update_route, authorize_order, accept, get_authorization, patch_status,
}
use mathlib.Core.Path.{subst}
use openshift_acme.World.{World}
use openshift_acme.Exposer.{Exposure}
use openshift_acme.Reconcile.Expose.{Flow, next_authz, return_nil}
use openshift_acme.Reconcile.Order.{
  http01_challenge, exposure, pend, with_challenge, step_authz, after_authz, authorize_all,
}
use openshift_acme.Reconcile.ClientFor.{client_for}
use openshift_acme.Reconcile.Acceptance.{only_rules, IsServed, AcceptsServed, expose-Only}
use openshift_acme.Reconcile.Reached.{IsReached}
use openshift_acme.Reconcile.Justified.{IsAcceptable, Justified}

http01_challenge-type :
    (found : Option Challenge) (cs : List Challenge) {c : Challenge}
    → http01_challenge found cs ≡ some c
    → (found ≡ some c) ⊎ (c.type ≡ "http-01")
unfolding http01_challenge
http01_challenge-type found [] h = inl h
http01_challenge-type found (d ∷ cs) {c} h =
    elim (http01_challenge-type (if str_eq d.type "http-01" then some d else found) cs h) [
      | inr t ↦ inr t
      | inl e ↦ ground (arith, eq_iff d.type "http-01")
    ]

picked_type :
    (cs : List Challenge) (c : Challenge) → http01_challenge none cs ≡ some c → c.type ≡ "http-01"
picked_type cs c h = elim (http01_challenge-type none cs h) [ inl e ↦ cc | inr t ↦ t ]

module _ (w : World) (key : String) where
  of_served :
      (route : Route) (e : Exposure) (c : Challenge)
      → (IsServed w route e → IsAcceptable w key c)
      → (a : Action) → AcceptsServed w route e c a
      → Justified w key a
  of_served route e c f (accept d) h = subst (IsAcceptable w key) (sym h.0) (f h.1)
  of_served route e c f (update_route r) h = absurd h
  of_served route e c f (authorize_order d) h = absurd h
  of_served route e c f (patch_status ns name text) h = absurd h
  of_served route e c f _ h = tt

module _ (w : World) (key : String) (route : Route) (reached : IsReached w key route)
    (client : Client) (chosen : client_for w route ≡ ok client) (order_uri : String) (order : Order)
    (ordered : client.get_order order_uri ≡ ok order) (order_pending : order.status ≡ pending) where
  module _ (url : String) (authz : Authorization)
      (authorized : client.get_authorization url ≡ ok authz)
      (authz_pending : authz.status ≡ pending) where
    pend-Only :
        (c : Challenge) (s : AcmeStatus)
        → c.status ≡ s
        → http01_challenge none authz.challenges ≡ some c
        → Only (Justified w key) (pend w client key route c s)
    unfolding pend
    pend-Only c pending e picked =
        Only-bind (lift (client.challenge_response c.token)) _ (Only-lift _) (λ response answered.
          Only-mono _
            (of_served w key route (exposure w client key route c response) c (λ served. record {
              route = route;
              reached = reached;
              client = client;
              chosen = chosen;
              order_uri = order_uri;
              order = order;
              ordered = ordered;
              order_pending = order_pending;
              authz_url = url;
              authz = authz;
              authorized = authorized;
              authz_pending = authz_pending;
              picked = picked;
              is_http01 = picked_type authz.challenges c picked;
              challenge_pending = e;
              response = response;
              answered = answered;
              served = served;
            }))
            (expose-Only w route (exposure w client key route c response) c client))
    pend-Only c processing e picked = search only_rules
    pend-Only c valid e picked = search only_rules
    pend-Only c invalid e picked = search only_rules
    pend-Only c _ e picked = search only_rules

    with_challenge-Only :
        (o : Option Challenge)
        → http01_challenge none authz.challenges ≡ o
        → Only (Justified w key) (with_challenge w client key route o)
    unfolding with_challenge
    with_challenge-Only none e = Only-fail _
    with_challenge-Only (some c) e = pend-Only c c.status refl e

  step_authz-Only :
      (url : String) (authz : Authorization) (s : AcmeStatus)
      → client.get_authorization url ≡ ok authz
      → authz.status ≡ s
      → Only (Justified w key) (step_authz w client key route authz s)
  unfolding step_authz
  step_authz-Only url authz pending authorized e = with_challenge-Only url authz authorized e _ refl
  step_authz-Only url authz valid authorized e = Only-pure _
  step_authz-Only url authz invalid authorized e = Only-pure _
  step_authz-Only url authz deactivated authorized e = Only-pure _
  step_authz-Only url authz expired authorized e = Only-pure _
  step_authz-Only url authz revoked authorized e = Only-pure _
  step_authz-Only url authz _ authorized e = Only-fail _

  after_authz-Only :
      (rest : Eff (Unit {0})) (flow : Flow)
      → Only (Justified w key) rest
      → Only (Justified w key) (after_authz rest flow)
  unfolding after_authz
  after_authz-Only rest next_authz h = h
  after_authz-Only rest return_nil h = Only-pure tt

  -- The actions of the loop over the authorizations are justified if those of the rest are.
  pub authorize_all-Only :
      (urls : List String) (done : Eff (Unit {0}))
      → Only (Justified w key) done
      → Only (Justified w key) (authorize_all w client key route urls done)
  unfolding authorize_all
  authorize_all-Only [] done h = h
  authorize_all-Only (url ∷ urls) done h =
      Only-bind (call (get_authorization url) (client.get_authorization url)) _ (Only-call _ _ tt)
        (λ authz authorized.
          Only-bind (step_authz w client key route authz authz.status) _
            (step_authz-Only url authz authz.status authorized refl)
            (λ flow _. after_authz-Only _ flow (authorize_all-Only urls done h)))
