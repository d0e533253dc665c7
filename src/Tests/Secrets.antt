-- ===== src/Tests/Secrets.antt =====
-- The copy of the sample route's certificate in a secret.
use openshift_acme.Common.{◌≤◌, ◌≡◌, refl, some, [], ◌∷◌, All, lookup, insert}
use openshift_acme.Kube.{Route}
use openshift_acme.Kube.Key
use openshift_acme.Acme.{pending}
use openshift_acme.Effects.{create_secret, ◌>>=◌}
use openshift_acme.World.{World}
use openshift_acme.Reconcile.Sample.{world_with, status, secured}
use openshift_acme.SecretSync.{
  sync_route_to_secret, get_sync_secret_name, filled, new_secret, copy_route, write_copy,
}
use openshift_acme.Reconcile.Sync.{is_deleted}
use openshift_acme.SecretSync.Once.{writes}
use openshift_acme.SecretSync.Written.{Copies, secret_holds_route_certificate}

-- The route asks for a secret of its own name.
abbrev asking : Route
asking = record secured {
  meta = record (secured.meta) { annotations = insert Key.secret_name "" secured.meta.annotations };
}

abbrev asked : World
asked = world_with (some asking) pending (status pending "o1")

creates_copy :
    (sync_route_to_secret asked "web/shop").0
    ≡ create_secret (
        filled asking
          (record {
            termination = "edge";
            insecure_policy = "Redirect";
            key = "key";
            certificate = "crt";
          })
          (new_secret "shop"))
      ∷ []
unfolding sync_route_to_secret copy_route get_sync_secret_name write_copy lookup insert ◌>>=◌
    is_deleted
creates_copy = refl

secret_holds_route_certificate_example :
    (writes (sync_route_to_secret asked "web/shop").0 ≤ 1)
    × All (Copies asked "web/shop") (sync_route_to_secret asked "web/shop").0
secret_holds_route_certificate_example = secret_holds_route_certificate asked "web/shop"
