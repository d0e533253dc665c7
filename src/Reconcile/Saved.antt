-- ===== src/Reconcile/Saved.antt =====
-- Each provisioning status that `sync` writes is a step of the state machine of orders from the one
-- that it has read.
pub mod Orders
pub mod Decisions
pub mod Runs
pub mod Needed
use openshift_acme.Common.{
  ℕ, String, ◌≡◌, refl, sym, Bool, true, false, not, Option, none, some, List, pos, ◌+ℤ◌, ltb_ℤ,
  ltb, is_empty, Bool-cases, inl, inr, ◌⊎◌, ◌<◌, arith, if◌then◌else◌, eq_iff, dict_eq, All,
}
use mathlib.Core.Path.{subst}
use openshift_acme.Errors.{
  Error, Result, ok, err, is_not_found, require, require-ok, cannot_encode_status,
}
use openshift_acme.Kube.{Route, Duration, ObjectMeta}
use openshift_acme.Cert.{CertPemData, new_certificate_from_der}
use openshift_acme.Acme.{
  AcmeStatus, none_yet, pending, processing, ready, valid, invalid, expired, revoked, deactivated,
  unknown, same_status, Order, Client,
}
use openshift_acme.Acme.Same.{same_status-eq}
use openshift_acme.Effects.{
  Action, Eff, pure, fail, lift, call, act, ignore_error, ◌>>=◌, ◌>>◌, Only, Only-bind, Only-call,
  Only-lift, Only-pure, Only-fail, Only-act, Only-if, Only-ignore_error, Only-mono, patch_status,
  update_route, authorize_order, get_order, get_route, authorize_order, create_order_cert, event,
  add_after,
}
use openshift_acme.Status.{
  Status, CertProvisioningStatus, get_status, set_status, encoded_meta, update_status,
}
use openshift_acme.Renewal.{Reason, no_reason}
use openshift_acme.World.{World}
use openshift_acme.Reconcile.ClientFor.{client_for}
use openshift_acme.Reconcile.Order.{
  save, step_order, finalize, store_certificate, abandon, count_failure, cleanup_exposer_objects,
}
use openshift_acme.Reconcile.Sync.{
  without_order, create_order, with_order, continue_order, order_step, retry_failed, provision,
  rest_until, healthy, decide, with_backoff, sync_managed, sync,
}
use openshift_acme.Reconcile.Acceptance.{only_rules}
use openshift_acme.Reconcile.Reached.{IsReached, sync-Only}
use openshift_acme.Reconcile.Justified.{RunsOnly}
use openshift_acme.Reconcile.Machine.{
  OrderState, order_state, state_of, IsOpen, IsOpen, IsFailed, IsIdle, IsReported, Step, rests,
  waits, creates, loses, goes_on, certifies, finishes, fails,
}
use openshift_acme.Reconcile.Quiet.{Quiet, authorize_all-Quiet, cleanup_exposer_objects-Quiet}

set_status-seen :
    (o : Option String) (obj : ObjectMeta) (status : Status) {m : ObjectMeta × Status}
    → encoded_meta o obj status ≡ ok m
    → m.1 ≡ status
unfolding encoded_meta
set_status-seen none obj status h = cc
set_status-seen (some text) obj status h = cc

module _ (w : World) (route : Route) (stored : Status) where
  -- The text is that of a status which is a step from the stored one, and has seen the generation of
  -- the route.
  pub record IsSaved (text : String) : Type 0 where
    pub status : Status
    pub encoded : w.codec.encode_json status ≡ some text
    pub generation : status.observed_generation ≡ route.meta.generation
    pub moves : Step w route (state_of stored.provisioning) (state_of status.provisioning)

  -- The route has the annotation of a status which is a step from the stored one.
  pub record IsWritten (updated : Route) : Type 0 where
    pub fresh : Route
    pub status : Status
    pub seen : Status
    pub marks : set_status w.codec fresh.meta status ≡ ok (updated.meta, seen)
    pub moves : Step w route (state_of stored.provisioning) (state_of status.provisioning)

  abbrev pub Moves : Action → Type 0
  Moves (patch_status ns name text) = IsSaved text
  Moves (update_route updated) = IsWritten updated
  Moves (authorize_order domain) =
      (domain ≡ route.host)
      × (IsOpen stored.provisioning.order_status → stored.provisioning.order_uri ≡ "")
  Moves _ = Unit

  pub Quiet-Moves : (a : Action) → Quiet a → Moves a
  Quiet-Moves (patch_status ns name text) h = absurd h
  Quiet-Moves (update_route r) h = absurd h
  Quiet-Moves (authorize_order d) h = absurd h
  Quiet-Moves _ h = tt

  pub save-Moves :
      (status : Status)
      → Step w route (state_of stored.provisioning) (state_of status.provisioning)
      → Only Moves (save w route status)
  unfolding update_status set_status
  save-Moves status moves =
      Only-bind (lift (set_status w.codec route.meta status)) _ (Only-lift _) λ m marks.
        let seen = set_status-seen _ _ _ marks in
        let patch = lift (require (w.codec.encode_json m.1) cannot_encode_status) >>= λ text.
        call (patch_status m.0.namespace m.0.name text) (w.api.patch_status text) in
        Only-if (dict_eq m.0.annotations route.meta.annotations) (pure tt) patch
          (λ same. Only-pure tt)
          λ differs. Only-bind _ _ (Only-lift _) λ text e. Only-call _ _ (record {
            status = m.1;
            encoded = require-ok _ _ _ e;
            generation = rw seen refl;
            moves = rw seen moves;
          })
