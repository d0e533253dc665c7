-- ===== src/Reconcile/Tests.antt =====
-- Reconciliations of the sample route, and the theorems at them.
use openshift_acme.Common.{
  ◌≡◌, refl, [], ◌∷◌, pos, All, some, none, lookup, quot, ◌-ℤ◌, ◌+ℤ◌, arith, String, false,
}
use openshift_acme.Acme.{pending, none_yet, ready, invalid}
use openshift_acme.Effects.{
  get_order, get_authorization, accept, add_after, patch_status, authorize_order,
}
use openshift_acme.Reconcile.Sync.{sync, order_step, without_order, with_backoff}
use openshift_acme.Reconcile.Challenges.{UpdatesCertified, updates_only_certified}
use openshift_acme.Kube.Key
use openshift_acme.Errors.{ok}
use openshift_acme.World.{World}
use openshift_acme.Reconcile.Outcomes.{idle, sync_skips, sync_healthy, failed_order_not_delayed}
use openshift_acme.Status.{Status, get_status}
use openshift_acme.Reconcile.Reached.{IsReached}
use openshift_acme.Kube.Managed.{is_managed, is_temporary}
use openshift_acme.Kube.Admitted.{is_admitted}
use openshift_acme.Renewal.{
  missing_cert_key, needs_cert_key, needs_renewal, time_sub, proactive_renewal_threshold,
  big_endian_uint64,
}
use openshift_acme.Cert.{certificate, is_valid}
use openshift_acme.Exposer.{Exposure, desired_route, controller_ref}
use openshift_acme.Exposer.Isolation.{exposer_route_isolated}
use openshift_acme.Reconcile.Sample.{world, status, challenge, run, world_with, secured, route}

accepts_served :
    (run pending (status pending "o1")).0
    ≡ get_order "o1"
      ∷ get_authorization "a1"
      ∷ accept challenge
      ∷ add_after "web/shop" (pos 15_000_000_000)
      ∷ patch_status "web" "shop" "json"
      ∷ []
unfolding run
accepts_served = refl

creates_order :
    (run pending (status none_yet "")).0
    ≡ authorize_order "shop.example" ∷ patch_status "web" "shop" "json" ∷ []
unfolding run
creates_order = refl

updates_only_certified_example :
    All
      (UpdatesCertified (world ready (status ready "o1")) "web/shop")
      (sync (world ready (status ready "o1")) "web/shop").0
updates_only_certified_example =
    updates_only_certified (world ready (status ready "o1")) "web/shop" (λ P f h. h 0)

abbrev deserted : World
deserted = world_with none pending (status pending "o1")

sync_skips_example : sync deserted "web/shop" ≡ idle
sync_skips_example = sync_skips deserted "web/shop" refl none refl (λ route r. cc (r.found))

reached : (stored : Status) → IsReached (world pending stored) "web/shop" route
unfolding is_managed is_temporary lookup is_admitted
reached stored = record { found = refl; alive = refl; managed = refl; admitted = refl }

abbrev calm : World
calm = world_with (some secured) pending (status none_yet "")

sync_healthy_example : sync calm "web/shop" ≡ (add_after "web/shop" (pos 50) ∷ [], ok tt)
unfolding is_managed is_temporary lookup is_admitted get_status needs_cert_key needs_renewal
    certificate is_valid time_sub proactive_renewal_threshold big_endian_uint64 quot ◌-ℤ◌ ◌+ℤ◌
sync_healthy_example =
    sync_healthy calm "web/shop" refl secured
      (record { found = refl; alive = refl; managed = refl; admitted = refl }) (status none_yet "")
      refl (pos 50) refl refl refl

failed_order_not_delayed_example :
    sync (world pending (status invalid "o1")) "web/shop"
    ≡ order_step (world pending (status invalid "o1")) "web/shop" route (
        without_order (
          with_backoff
            (world pending (status invalid "o1"))
            "web/shop"
            route
            (status invalid "o1")))
unfolding lookup get_status needs_cert_key
failed_order_not_delayed_example =
    failed_order_not_delayed (world pending (status invalid "o1")) "web/shop" refl route
      (reached (status invalid "o1")) (status invalid "o1") refl missing_cert_key (pos 0) refl
      (λ e. cc e) tt (omega arith) (omega arith)

abbrev token : Exposure
token = record {
  id = "shop.example:/c";
  name = "exposer-1";
  key = "web/shop";
  path = "/c";
  response = "answer";
}

exposer_route_isolated_example :
    ((key : String) → is_managed (desired_route calm route token).meta key ≡ false)
    × (lookup Key.exposer_uid (desired_route calm route token).meta.labels ≡ some "u1")
    × (lookup Key.exposer_id (desired_route calm route token).meta.annotations
        ≡ some "shop.example:/c")
    × ((desired_route calm route token).meta.owner_references ≡ controller_ref route.meta ∷ [])
exposer_route_isolated_example = exposer_route_isolated calm route token
