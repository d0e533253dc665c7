-- ===== src/Reconcile/Saved/Needed.antt =====
-- Reconcile.Saved: a reconciliation with a certificate that needs no renewal creates no order, but for
-- one that is open and has no URL.
use openshift_acme.Common.{String, ◌≡◌, ◌≢◌}
use openshift_acme.Kube.{Route, Duration}
use openshift_acme.Acme.{AcmeStatus, pending, processing, ready}
use openshift_acme.Effects.{Action, Eff, Only, Only-all, authorize_order}
use openshift_acme.Status.{Status, update_status}
use openshift_acme.Renewal.{Reason, no_reason}
use openshift_acme.World.{World}
use openshift_acme.Reconcile.Order.{save}
use openshift_acme.Reconcile.Sync.{rest_until, healthy, decide}
use openshift_acme.Reconcile.Acceptance.{only_rules}
use openshift_acme.Reconcile.Machine.{IsOpen}

-- Where there is no cause for a new certificate, only an open order is created.
abbrev pub IsNeeded : Reason → AcmeStatus → Action → Type 0
IsNeeded cause s (authorize_order domain) = cause ≡ no_reason → IsOpen s
IsNeeded cause s _ = Unit

module _ (w : World) (key : String) (route : Route) (status : Status) where
  save-IsNeeded :
      (cause : Reason) (s : AcmeStatus) (status' : Status)
      → Only (IsNeeded cause s) (save w route status')
  unfolding update_status
  save-IsNeeded cause s status' = search (only_rules, tt)

  rest_until-IsNeeded :
      (cause : Reason) (s : AcmeStatus) (d : Duration)
      → Only (IsNeeded cause s) (rest_until w key route d status)
  unfolding rest_until
  rest_until-IsNeeded cause s d = search (only_rules, save-IsNeeded cause s, tt)

  open_step-IsNeeded :
      {A : Type 0} (cause : Reason) (s : AcmeStatus)
      → IsOpen s
      → (m : Eff A) → Only (IsNeeded cause s) m
  open_step-IsNeeded cause s is_open = Only-all each
    where
      each : (a : Action) → IsNeeded cause s a
      each (authorize_order domain) = λ _. is_open
      each _ = tt

  caused-IsNeeded :
      {A : Type 0} (cause : Reason) (s : AcmeStatus)
      → cause ≢ no_reason
      → (m : Eff A) → Only (IsNeeded cause s) m
  caused-IsNeeded cause s caused = Only-all each
    where
      each : (a : Action) → IsNeeded cause s a
      each (authorize_order domain) = λ e. absurd (caused e)
      each _ = tt

  healthy-IsNeeded :
      (cause : Reason) (d : Duration) (s : AcmeStatus)
      → Only (IsNeeded cause s) (healthy w key route d s status)
  unfolding healthy
  healthy-IsNeeded cause d pending = open_step-IsNeeded cause pending tt _
  healthy-IsNeeded cause d processing = open_step-IsNeeded cause processing tt _
  healthy-IsNeeded cause d ready = open_step-IsNeeded cause ready tt _
  healthy-IsNeeded cause d s = rest_until-IsNeeded cause s d

  pub decide-IsNeeded :
      (cause : Reason) (d : Duration)
      → Only (IsNeeded cause status.provisioning.order_status) (decide w key route cause d status)
  unfolding decide
  decide-IsNeeded no_reason d = healthy-IsNeeded no_reason d _
  decide-IsNeeded cause d = caused-IsNeeded cause _ (λ e. cc e) _
