-- ===== src/Tests/Orders.antt =====
-- The state machine of orders, at the sample world.
use openshift_acme.Common.{All}
use openshift_acme.Acme.{none_yet, pending, ready}
use openshift_acme.Reconcile.Sync.{sync}
use openshift_acme.Reconcile.Sample.{world, status}
use openshift_acme.Reconcile.Saved.Runs.{SavesSteps, sync-SavesSteps, CreatesOnce, sync-CreatesOnce}

sync-SavesSteps_example :
    All
      (SavesSteps (world ready (status ready "o1")) "web/shop")
      (sync (world ready (status ready "o1")) "web/shop").0
sync-SavesSteps_example =
    sync-SavesSteps (world ready (status ready "o1")) "web/shop" (λ P f h. h 0)

sync-CreatesOnce_example :
    All
      (CreatesOnce (world pending (status none_yet "")) "web/shop")
      (sync (world pending (status none_yet "")) "web/shop").0
sync-CreatesOnce_example =
    sync-CreatesOnce (world pending (status none_yet "")) "web/shop" (λ P f h. h 0)
