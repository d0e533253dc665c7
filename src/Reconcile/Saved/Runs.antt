-- ===== src/Reconcile/Saved/Runs.antt =====
-- Reconcile.Saved: the statuses that a whole reconciliation writes.
use openshift_acme.Common.{String, ◌≡◌, All}
use openshift_acme.Errors.{ok}
use openshift_acme.Kube.{Route, Duration}
use openshift_acme.Effects.{
  Action, Only, Only-bind, Only-lift, Only-mono, Only-both, patch_status, update_route,
  authorize_order,
}
use openshift_acme.Status.{Status, get_status}
use openshift_acme.Renewal.{Reason, no_reason, needs_cert_key}
use openshift_acme.World.{World}
use openshift_acme.Reconcile.Sync.{with_backoff, sync_managed, sync}
use openshift_acme.Reconcile.Reached.{IsReached, sync-Only}
use openshift_acme.Reconcile.Justified.{RunsOnly}
use openshift_acme.Reconcile.Machine.{IsOpen}
use openshift_acme.Reconcile.Saved.{Moves, IsSaved, IsWritten}
use openshift_acme.Reconcile.Saved.Needed.{IsNeeded, decide-IsNeeded}
use openshift_acme.Reconcile.Saved.Decisions.{decide-Moves}

module _ (w : World) (key : String) where
  -- A status of a route that `sync` acts on, as it was read.
  pub record IsRead (route : Route) (stored : Status) : Type 0 where
    pub reached : IsReached w key route
    pub read : get_status w.codec route ≡ ok stored

  -- The checks of the certificate find a cause for a new one, or the status has an open order.
  pub record IsCaused (route : Route) (stored : Status) : Type 0 where
    pub cause : Reason
    pub delay : Duration
    pub checked : needs_cert_key w.x509 w.clock.at_check route ≡ ok (cause, delay)
    pub needed : cause ≡ no_reason → IsOpen stored.provisioning.order_status

  abbrev pub SavesSteps : Action → Type 0
  SavesSteps (patch_status ns name text) =
      (route : Route) × (stored : Status) × IsRead route stored × IsSaved w route stored text
  SavesSteps (update_route updated) =
      (route : Route) × (stored : Status) × IsRead route stored × IsWritten w route stored updated
  SavesSteps _ = Unit

  abbrev Records : Action → Type 0
  Records (patch_status ns name text) =
      (route : Route) × (stored : Status) × IsRead route stored × IsSaved w route stored text
  Records (update_route updated) =
      (route : Route) × (stored : Status) × IsRead route stored × IsWritten w route stored updated
  Records (authorize_order domain) =
      (route : Route) × (stored : Status) × IsRead route stored
      × (domain ≡ route.host)
      × (IsOpen stored.provisioning.order_status → stored.provisioning.order_uri ≡ "")
      × IsCaused route stored
  Records _ = Unit

  abbrev pub CreatesOnce : Action → Type 0
  CreatesOnce (authorize_order domain) =
      (route : Route) × (stored : Status) × IsRead route stored
      × (domain ≡ route.host)
      × (IsOpen stored.provisioning.order_status → stored.provisioning.order_uri ≡ "")
      × IsCaused route stored
  CreatesOnce _ = Unit

  -- The time of the next attempt plays no role in the steps.
  of_Moves :
      (route : Route) (stored : Status)
      → IsRead route stored
      → (cause : Reason) (delay : Duration)
      → needs_cert_key w.x509 w.clock.at_check route ≡ ok (cause, delay)
      → (a : Action)
      → Moves w route (with_backoff w key route stored) a
        × IsNeeded cause stored.provisioning.order_status a
      → Records a
  unfolding with_backoff
  of_Moves route stored r cause delay checked (patch_status ns name text) (h, _) = (
    route,
    stored,
    r,
    record { status = h.status; encoded = h.encoded; generation = h.generation; moves = h.moves },
  )
  of_Moves route stored r cause delay checked (update_route updated) (h, _) = (
    route,
    stored,
    r,
    record { fresh = h.fresh; status = h.status; seen = h.seen; marks = h.marks; moves = h.moves },
  )
  of_Moves route stored r cause delay checked (authorize_order domain) (h, needed) = (
    route,
    stored,
    r,
    h.0,
    h.1,
    record { cause = cause; delay = delay; checked = checked; needed = needed },
  )
  of_Moves route stored r cause delay checked _ h = tt

  sync_managed-Moves :
      (route : Route)
      → RunsOnly w.packages
      → IsReached w key route
      → Only Records (sync_managed w key route)
  unfolding sync_managed with_backoff
  sync_managed-Moves route runs_only reached = Only-bind _ _ (Only-lift _) λ stored read.
      Only-bind _ _ (Only-lift _) λ r checked.
        let delayed = with_backoff w key route stored in
        Only-mono _
          (of_Moves route stored (record { reached = reached; read = read }) r.0 r.1 checked)
          (Only-both _ (decide-Moves w key route runs_only delayed r.0 r.1)
            (decide-IsNeeded w key route delayed r.0 r.1))

  sync-Records : RunsOnly w.packages → Only Records (sync w key)
  sync-Records runs_only =
      sync-Only Records w key λ route reached. sync_managed-Moves route runs_only reached

  -- Every provisioning status that a reconciliation writes, in a patch or with a certificate, is one
  -- step of the state machine of orders from the status that it has read of the route, in which the
  -- servers have given the replies that the step asks for. Assumed is that RetryOnConflict only runs
  -- its function.
  pub sync-SavesSteps : RunsOnly w.packages → All SavesSteps (sync w key).0
  sync-SavesSteps runs_only = (Only-mono _ of_Records (sync-Records runs_only)).actions
    where
      of_Records : (a : Action) → Records a → SavesSteps a
      of_Records (patch_status ns name text) h = h
      of_Records (update_route updated) h = h
      of_Records _ h = tt

  -- Every order that a reconciliation creates is for the host of a route that it acts on, and the
  -- status that it has read of the route has no open order: if its order status is open, then it
  -- has no order URL. The checks of the certificate find a cause for a new one, or the order status is
  -- open. Assumed is that RetryOnConflict only runs its function.
  pub sync-CreatesOnce : RunsOnly w.packages → All CreatesOnce (sync w key).0
  sync-CreatesOnce runs_only = (Only-mono _ of_Records (sync-Records runs_only)).actions
    where
      of_Records : (a : Action) → Records a → CreatesOnce a
      of_Records (authorize_order domain) h = h
      of_Records _ h = tt
