-- ===== src/Reconcile/Quiet.antt =====
-- The authorizations of an order leave the provisioning status alone.
use openshift_acme.Common.{String, Option, none, some, List, [], ◌∷◌}
use openshift_acme.Kube.{Route}
use openshift_acme.Acme.{
  AcmeStatus, pending, processing, valid, invalid, expired, revoked, deactivated, Authorization,
  Client, Challenge,
}
use openshift_acme.Effects.{
  Action, Eff, call, Only, Only-bind, Only-call, Only-lift, Only-pure, Only-fail, Only-mono,
  update_route, authorize_order, patch_status, get_authorization,
}
use openshift_acme.World.{World}
use openshift_acme.Exposer.{Exposure}
use openshift_acme.Reconcile.Expose.{Flow, next_authz, return_nil}
use openshift_acme.Reconcile.Order.{
  exposure, pend, with_challenge, step_authz, after_authz, authorize_all, cleanup_exposer_objects,
}
use openshift_acme.Reconcile.Acceptance.{only_rules, AcceptsServed, expose-Only}

-- The action writes no status and creates no order.
abbrev pub Quiet : Action → Type 0
Quiet (patch_status ns name text) = ⊥
Quiet (update_route r) = ⊥
Quiet (authorize_order d) = ⊥
Quiet _ = Unit

of_served :
    (w : World) (route : Route) (e : Exposure) (c : Challenge) (a : Action)
    → AcceptsServed w route e c a
    → Quiet a
of_served w route e c (patch_status ns name text) h = absurd h
of_served w route e c (update_route r) h = absurd h
of_served w route e c (authorize_order d) h = absurd h
of_served w route e c _ h = tt

module _ (w : World) (client : Client) (key : String) (route : Route) where
  pend-Quiet : (c : Challenge) (s : AcmeStatus) → Only Quiet (pend w client key route c s)
  unfolding pend
  pend-Quiet c pending = Only-bind _ _ (Only-lift _) λ response answered.
      let e = exposure w client key route c response in
      Only-mono _ (of_served w route e c) (expose-Only w route e c client)
  pend-Quiet c processing = search (only_rules, tt)
  pend-Quiet c valid = search (only_rules, tt)
  pend-Quiet c invalid = search (only_rules, tt)
  pend-Quiet c _ = Only-fail _

  with_challenge-Quiet : (o : Option Challenge) → Only Quiet (with_challenge w client key route o)
  unfolding with_challenge
  with_challenge-Quiet none = Only-fail _
  with_challenge-Quiet (some c) = pend-Quiet c c.status

  step_authz-Quiet :
      (authz : Authorization) (s : AcmeStatus) → Only Quiet (step_authz w client key route authz s)
  unfolding step_authz
  step_authz-Quiet authz pending = with_challenge-Quiet _
  step_authz-Quiet authz valid = Only-pure _
  step_authz-Quiet authz invalid = Only-pure _
  step_authz-Quiet authz deactivated = Only-pure _
  step_authz-Quiet authz expired = Only-pure _
  step_authz-Quiet authz revoked = Only-pure _
  step_authz-Quiet authz _ = Only-fail _

  module _ {P : Action → Type 0} (quiet : (a : Action) → Quiet a → P a) where
    after_authz-Quiet :
        (rest : Eff (Unit {0})) (flow : Flow) → Only P rest → Only P (after_authz rest flow)
    unfolding after_authz
    after_authz-Quiet rest next_authz h = h
    after_authz-Quiet rest return_nil h = Only-pure tt

    -- What holds of the quiet actions and of those of the rest holds of all.
    pub authorize_all-Quiet :
        (urls : List String) (done : Eff (Unit {0}))
        → Only P done
        → Only P (authorize_all w client key route urls done)
    unfolding authorize_all
    authorize_all-Quiet [] done h = h
    authorize_all-Quiet (url ∷ urls) done h =
        Only-bind (call (get_authorization url) (client.get_authorization url)) _
          (Only-call _ _ (quiet _ tt))
          λ authz authorized.
            Only-bind (step_authz w client key route authz authz.status) _
              (Only-mono _ quiet (step_authz-Quiet authz authz.status))
              λ flow _. after_authz-Quiet _ flow (authorize_all-Quiet urls done h)

    pub cleanup_exposer_objects-Quiet : Only P (cleanup_exposer_objects w route)
    unfolding cleanup_exposer_objects
    cleanup_exposer_objects-Quiet = Only-call _ _ (quiet _ tt)
