-- ===== src/Tests/Queues.antt =====
-- A worker at the sample world, and at one whose cache cannot be read.
use openshift_acme.Common.{String, ◌≡◌, refl, Option, none, some, List, [], ◌∷◌}
use openshift_acme.Errors.{err, not_found}
use openshift_acme.Acme.{pending, none_yet}
use openshift_acme.Effects.{◌>>=◌}
use openshift_acme.World.{World}
use openshift_acme.Reconcile.Sync.{sync}
use openshift_acme.Reconcile.Sample.{world, status}
use openshift_acme.Workers.{
  add_rate_limited, done, judge, process_next, run_worker, run_route_worker,
}

abbrev sample : World
sample = world pending (status none_yet "")

abbrev broken : World
broken = record sample { caches = record (sample.caches) { route_by_key = λ _. err not_found } }

abbrev gets : List (Option (World × String))
gets = some (broken, "web/shop") ∷ none ∷ some (sample, "web/shop") ∷ []

puts_back : run_route_worker gets ≡ add_rate_limited "web/shop" ∷ done "web/shop" ∷ []
unfolding run_route_worker run_worker process_next judge sync ◌>>=◌
puts_back = refl
