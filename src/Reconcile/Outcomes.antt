-- ===== src/Reconcile/Outcomes.antt =====
-- What whole reconciliations do: nothing for a route that is not theirs, nothing but the next check for
-- a healthy certificate, and a new order at once for a failed one.
use openshift_acme.Common.{
  String, ◌≡◌, ◌≢◌, refl, sym, ap, ◌∙◌, true, false, Option, none, some, [], ◌∷◌, arith,
  if◌then◌else◌, pos, ◌≤ℤ◌, ◌<ℤ◌, ltb_ℤ, is_empty, ◌+ℤ◌, -ℤ_parts, int_laws, Bool-cases, inl, inr,
}
use mathlib.Core.Path.{subst}
use openshift_acme.Errors.{ok}
use openshift_acme.Kube.{Route, Time, Duration}
use openshift_acme.Kube.Managed.{is_managed}
use openshift_acme.Kube.Admitted.{is_admitted}
use openshift_acme.Acme.{
  AcmeStatus, none_yet, pending, processing, ready, valid, invalid, expired, revoked, deactivated,
  unknown, is_none_yet,
}
use openshift_acme.Effects.{Eff, add_after, ◌>>=◌}
use openshift_acme.Status.{Status, get_status}
use openshift_acme.Renewal.{Reason, no_reason, needs_cert_key, time_sub}
use openshift_acme.Backoff.{order_backoff-zero}
use openshift_acme.World.{World}
use openshift_acme.Reconcile.Sync.{
  sync, sync_found, sync_managed, decide, provision, retry_failed, healthy, rest_until,
  with_backoff, without_order, order_step, is_deleted,
}
use openshift_acme.Reconcile.Reached.{IsReached, none_of_not}

abbrev pub idle : Eff (Unit {0})
idle = ([], ok tt)

deleted_none : {t : Option Time} → t ≡ none → is_deleted t ≡ false
unfolding is_deleted
deleted_none h = rw h

-- The statuses of a failed order.
abbrev pub IsFailed : AcmeStatus → Type 0
IsFailed invalid = Unit
IsFailed expired = Unit
IsFailed revoked = Unit
IsFailed deactivated = Unit
IsFailed _ = ⊥

time_sub_past : (t u : Time) → t ≤ℤ u → ltb_ℤ (pos 0) (time_sub t u) ≡ false
unfolding time_sub
time_sub_past t u h = ground (arith, -ℤ_parts t u)

add_zero : (t u : Time) → u ≡ pos 0 → t +ℤ u ≡ t
add_zero t u h = rw h (omega int_laws)

module _ (w : World) (key : String) (route : Route) where
  rest_until-idle :
      (d : Duration) (status : Status)
      → is_empty status.provisioning.order_uri ≡ true
      → is_none_yet status.provisioning.order_status ≡ true
      → rest_until w key route d status
        ≡ ((if ltb_ℤ (pos 0) d then add_after key d ∷ [] else []), ok tt)
  unfolding rest_until ◌>>=◌
  rest_until-idle d status uri order = elim (Bool-cases (ltb_ℤ (pos 0) d)) [
    | inl later ↦ rw (later, uri, order)
    | inr never ↦ rw (never, uri, order)
  ]

  healthy-idle :
      (d : Duration) (s : AcmeStatus) (status : Status)
      → s ≡ none_yet
      → healthy w key route d s status ≡ rest_until w key route d status
  unfolding healthy
  healthy-idle d s status h = rw h

  pub decide-needed :
      (cause : Reason) (d : Duration) (status : Status)
      → cause ≢ no_reason
      → decide w key route cause d status
        ≡ provision w key route status.provisioning.order_status status
  unfolding decide
  decide-needed no_reason d status h = absurd (h refl)
  decide-needed _ d status h = refl

  provision-failed :
      (s : AcmeStatus) (status : Status)
      → IsFailed s
      → provision w key route s status ≡ retry_failed w key route status
  unfolding provision
  provision-failed invalid status h = refl
  provision-failed expired status h = refl
  provision-failed revoked status h = refl
  provision-failed deactivated status h = refl
  provision-failed none_yet status h = absurd h
  provision-failed pending status h = absurd h
  provision-failed processing status h = absurd h
  provision-failed ready status h = absurd h
  provision-failed valid status h = absurd h
  provision-failed (unknown t) status h = absurd h

  retry_failed-now :
      (status : Status)
      → status.provisioning.earliest_attempt_at ≤ℤ w.clock.at_delay
      → retry_failed w key route status ≡ order_step w key route (without_order status)
  unfolding retry_failed
  retry_failed-now status h = rw (time_sub_past _ _ h)

  with_backoff-now :
      (status : Status)
      → pos 0 <ℤ w.config.cert_order_backoff_max
      → (with_backoff w key route status).provisioning.earliest_attempt_at
        ≡ status.provisioning.started_at
  unfolding with_backoff
  with_backoff-now status limit =
      add_zero _ _ (
        order_backoff-zero w.config.cert_order_backoff_initial _ status.provisioning.failures limit)

module _ (w : World) (key : String) {parts : String × String}
    (named : w.packages.split_key key ≡ ok parts) where
  sync-found :
      (found : Option Route)
      → w.caches.route_by_key key ≡ ok found
      → sync w key ≡ sync_found w key found
  unfolding sync ◌>>=◌
  sync-found found e = rw (named, e)

  pub sync-reached : (route : Route) → IsReached w key route → sync w key ≡ sync_managed w key route
  unfolding sync_found
  sync-reached route r =
      sync-found (some route) r.found ∙ rw (deleted_none r.alive, r.managed, r.admitted)

  -- A reconciliation succeeds and does nothing if the cached route is missing, is being deleted, is not
  -- managed or is not admitted.
  pub sync_skips :
      (found : Option Route)
      → w.caches.route_by_key key ≡ ok found
      → ((route : Route) → ¬ IsReached w key route)
      → sync w key ≡ idle
  unfolding sync_found
  sync_skips none e h = sync-found none e
  sync_skips (some route) e h =
      sync-found (some route) e ∙ elim (Bool-cases (is_deleted route.meta.deletion_timestamp)) [
        | inl gone ↦ rw gone
        | inr alive ↦ rw alive (elim (Bool-cases (is_managed route.meta w.config.annotation)) [
          | inr unmanaged ↦ rw unmanaged
          | inl managed ↦ rw managed (elim (Bool-cases (is_admitted route)) [
            | inr refused ↦ rw refused
            | inl admitted ↦ absurd (
                h route (record {
                  found = e;
                  alive = none_of_not _ alive;
                  managed = managed;
                  admitted = admitted;
                }))
          ])
        ])
      ]

  module _ (route : Route) (reached : IsReached w key route) (status : Status)
      (stored : get_status w.codec route ≡ ok status) where
    pub sync-decide :
        (cause : Reason) (d : Duration)
        → needs_cert_key w.x509 w.clock.at_check route ≡ ok (cause, d)
        → sync w key ≡ decide w key route cause d (with_backoff w key route status)
    unfolding sync_managed ◌>>=◌
    sync-decide cause d e = sync-reached route reached ∙ rw (stored, e)

    -- A route whose certificate needs no renewal, and that has no order, is only queued for the moment
    -- when the renewal is due, if there is one.
    pub sync_healthy :
        (d : Duration)
        → needs_cert_key w.x509 w.clock.at_check route ≡ ok (no_reason, d)
        → status.provisioning.order_uri ≡ ""
        → status.provisioning.order_status ≡ none_yet
        → sync w key ≡ ((if ltb_ℤ (pos 0) d then add_after key d ∷ [] else []), ok tt)
    unfolding decide with_backoff is_none_yet
    sync_healthy d e uri order =
        sync-decide no_reason d e
        ∙ healthy-idle w key route d _ _ order
        ∙ rest_until-idle w key route d _ (ap is_empty uri) (ap is_none_yet order)

    -- A failed order is given up at once, whatever the number of failures and the initial delay are: if
    -- the upper limit of the delay is positive and the order was not started in the future, then a
    -- reconciliation that finds the certificate missing or due goes straight on to a new order.
    pub failed_order_not_delayed :
        (cause : Reason) (d : Duration)
        → needs_cert_key w.x509 w.clock.at_check route ≡ ok (cause, d)
        → cause ≢ no_reason
        → IsFailed status.provisioning.order_status
        → pos 0 <ℤ w.config.cert_order_backoff_max
        → status.provisioning.started_at ≤ℤ w.clock.at_delay
        → sync w key ≡ order_step w key route (without_order (with_backoff w key route status))
    unfolding with_backoff
    failed_order_not_delayed cause d e needed failed limit started =
        sync-decide cause d e
        ∙ decide-needed w key route cause d _ needed
        ∙ provision-failed w key route _ _ failed
        ∙ retry_failed-now w key route _ (
            subst (λ t. t ≤ℤ w.clock.at_delay) (sym (with_backoff-now w key route status limit))
              started)
