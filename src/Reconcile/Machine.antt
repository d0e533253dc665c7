-- ===== src/Reconcile/Machine.antt =====
-- The order of a route as a state machine: what is kept of the provisioning status from one
-- reconciliation to the next, with the steps that the servers' replies allow.
use openshift_acme.Common.{String, ◌≡◌, true, ℤ, pos, ◌+ℤ◌, ◌⊎◌}
use openshift_acme.Errors.{Error, ok, err, is_not_found}
use openshift_acme.Kube.{Route}
use openshift_acme.Acme.{
  AcmeStatus, none_yet, pending, processing, ready, valid, invalid, expired, revoked, deactivated,
  Order, Client,
}
use openshift_acme.Status.{CertProvisioningStatus}
use openshift_acme.World.{World}
use openshift_acme.Reconcile.ClientFor.{client_for}

pub record OrderState : Type 0 where
  pub order_uri : String
  pub order_status : AcmeStatus
  pub failures : ℤ

abbrev pub order_state : String → AcmeStatus → ℤ → OrderState
order_state uri status failures = record {
  order_uri = uri;
  order_status = status;
  failures = failures;
}

-- The times, the account and the error are forgotten.
abbrev pub state_of : CertProvisioningStatus → OrderState
state_of p = order_state p.order_uri p.order_status p.failures

-- Statuses in which the order is asked for at the server.
abbrev pub IsOpen : AcmeStatus → Type 0
IsOpen none_yet = ⊥
IsOpen valid = ⊥
IsOpen invalid = ⊥
IsOpen expired = ⊥
IsOpen revoked = ⊥
IsOpen deactivated = ⊥
IsOpen _ = Unit

abbrev pub IsFailed : AcmeStatus → Type 0
IsFailed invalid = Unit
IsFailed expired = Unit
IsFailed revoked = Unit
IsFailed deactivated = Unit
IsFailed _ = ⊥

-- Statuses with which a healthy route is left alone.
abbrev pub IsIdle : AcmeStatus → Type 0
IsIdle pending = ⊥
IsIdle processing = ⊥
IsIdle ready = ⊥
IsIdle _ = Unit

module _ (w : World) (route : Route) where
  -- The server has an order for the state, which is open.
  pub record IsReported (s : OrderState) (order : Order) : Type 0 where
    pub client : Client
    pub chosen : client_for w route ≡ ok client
    pub is_open : IsOpen s.order_status
    pub reported : client.get_order s.order_uri ≡ ok order

  pub data Step : OrderState → OrderState → Type 0 where
    rests : (s : OrderState) → IsIdle s.order_status → Step s (order_state "" none_yet s.failures)
    waits : (s : OrderState) → IsFailed s.order_status → Step s s
    creates :
        (s : OrderState) (client : Client) (order : Order)
        → client_for w route ≡ ok client
        → client.authorize_order route.host ≡ ok order
        → (IsOpen s.order_status → s.order_uri ≡ "")
        → Step s (order_state order.uri order.status s.failures)
    loses :
        (s : OrderState) (client : Client) (e : Error)
        → client_for w route ≡ ok client
        → IsOpen s.order_status
        → client.get_order s.order_uri ≡ err e
        → is_not_found e ≡ true
        → Step s (order_state "" s.order_status s.failures)
    goes_on :
        (s : OrderState) (order : Order)
        → IsReported s order
        → (order.status ≡ pending) ⊎ (order.status ≡ processing)
        → Step s (order_state s.order_uri order.status s.failures)
    certifies :
        (s : OrderState) (order : Order)
        → IsReported s order
        → order.status ≡ ready
        → Step s (order_state s.order_uri valid (pos 0))
    finishes :
        (s : OrderState) (order : Order)
        → IsReported s order
        → order.status ≡ valid
        → Step s (order_state "" none_yet (s.failures +ℤ pos 1))
    fails :
        (s : OrderState) (order : Order)
        → IsReported s order
        → IsFailed order.status
        → Step s (order_state s.order_uri order.status (s.failures +ℤ pos 1))
