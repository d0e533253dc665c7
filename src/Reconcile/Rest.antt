-- ===== src/Reconcile/Rest.antt =====
-- After a certificate was stored in a route, the route rests.
use openshift_acme.Common.{
  String, Bool, ◌≡◌, refl, ap, ◌∙◌, true, false, not, ◌||◌, some, List, [], ◌∷◌, ◌++◌, pos, ltb_ℤ,
  is_empty, if◌then◌else◌, Bool-cases, inl, inr,
}
use openshift_acme.Errors.{ok}
use openshift_acme.Kube.{Route, Duration}
use openshift_acme.Acme.{AcmeStatus, valid, is_none_yet, Order, Client}
use openshift_acme.Effects.{Action, Eff, act, pure, add_after, >>=-after}
use openshift_acme.Status.{Status}
use openshift_acme.Status.Stored.{observed, get_status-set_status}
use openshift_acme.Renewal.{no_reason, needs_cert_key}
use openshift_acme.World.{World}
use openshift_acme.Reconcile.Order.{save}
use openshift_acme.Reconcile.Sync.{sync, decide, healthy, rest_until, with_backoff, without_order}
use openshift_acme.Reconcile.Reached.{IsReached}
use openshift_acme.Reconcile.Outcomes.{sync-decide}
use openshift_acme.Reconcile.Lifecycle.{certified, IsIssued}

-- The key is added again for the moment when the renewal is due.
abbrev pub requeued : String → Duration → List Action
requeued key d = if ltb_ℤ (pos 0) d then add_after key d ∷ [] else []

requeue : String → Duration → Eff (Unit {0})
requeue key d = if ltb_ℤ (pos 0) d then act (add_after key d) else pure tt

requeue-requeued : (key : String) (d : Duration) → requeue key d ≡ (requeued key d, ok tt)
unfolding requeue
requeue-requeued key d = elim (Bool-cases (ltb_ℤ (pos 0) d)) [
  | inl later ↦ rw later refl
  | inr never ↦ rw never refl
]

or_true : (b c : Bool) → c ≡ true → (b || c) ≡ true
or_true true c h = refl
or_true false c h = h

module _ (w : World) (key : String) (route : Route) where
  rest_until-reset :
      (d : Duration) (status : Status)
      → is_none_yet status.provisioning.order_status ≡ false
      → rest_until w key route d status ≡ (
        requeued key d ++ (save w route (without_order status)).0,
        (save w route (without_order status)).1,
      )
  unfolding rest_until requeue
  rest_until-reset d status ended =
      >>=-after _ (requeue-requeued key d)
        (rw (or_true (not (is_empty status.provisioning.order_uri)) _ (ap not ended)) refl)

  decide-valid :
      (d : Duration) (status : Status)
      → status.provisioning.order_status ≡ valid
      → decide w key route no_reason d status ≡ rest_until w key route d status
  unfolding decide healthy
  decide-valid d status h = go status.provisioning.order_status h
    where
      go :
          (s : AcmeStatus)
          → s ≡ valid
          → healthy w key route d s status ≡ rest_until w key route d status
      go s e = rw e refl

-- The route that a reconciliation has updated with a certificate, once it is in the cache of a
-- reconciliation that finds no reason to renew the certificate, is only queued for the moment when
-- the renewal is due, and its order is taken out of its status: no call of the ACME server is made.
-- Assumed is that the codec reads the YAML text that the other reconciliation has written for the status.
pub installed_certificate_rests :
    (before : World) (client : Client) (route : Route) (order : Order) (status : Status)
    (updated : Route) (i : IsIssued before client route order status updated) (w : World)
    (key : String) {parts : String × String}
    → w.packages.split_key key ≡ ok parts
    → IsReached w key updated
    → (let seen = observed i.fresh.meta (certified status) in
        (text : String)
        → before.codec.encode_yaml seen ≡ some text
        → w.codec.decode text ≡ some seen)
    → (d : Duration) → needs_cert_key w.x509 w.clock.at_check updated ≡ ok (no_reason, d)
    → let rested =
        without_order (with_backoff w key updated (observed i.fresh.meta (certified status))) in
      sync w key ≡ (requeued key d ++ (save w updated rested).0, (save w updated rested).1)
unfolding with_backoff is_none_yet
installed_certificate_rests before client route order status updated i w key named reached reads d
      checked =
    let read =
      get_status-set_status before.codec w.codec i.fresh.meta (certified status) reads i.marked
        updated i.marks (ap (λ (r : Route). r.meta) i.is_updated) in
    sync-decide w key named updated reached _ read no_reason d checked
    ∙ decide-valid w key updated d _ refl
    ∙ rest_until-reset w key updated d _ refl
