-- ===== src/Reconcile.antt =====
-- pkg/controller/route/route.go: the reconciliation of a route, from the objects of an exposer up to
-- `sync`, and what it guarantees.
pub mod Expose
pub mod Order
pub mod ClientFor
pub mod Sync
pub mod Acceptance
pub mod Reached
pub mod Justified
pub mod Authorized
pub mod Challenges
pub mod Machine
pub mod Quiet
pub mod Saved
pub mod Outcomes
pub mod Lifecycle
pub mod Rest
pub mod Begin
pub mod Accepted
pub mod Sample
mod Tests
