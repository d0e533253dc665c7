-- ===== src/Workers.antt =====
-- pkg/controller/route/route.go and pkg/controller/issuer/acme/acme.go: the workers of the queues.
pub mod Retries
use openshift_acme.Common.{
  String, Bool, true, false, Option, none, some, List, [], ◌∷◌, ◌++◌, if◌then◌else◌,
}
use openshift_acme.Errors.{Result, ok, err}
use openshift_acme.World.{World}
use openshift_acme.Reconcile.Sync.{sync}
use openshift_acme.SecretSync.{sync_route_to_secret}
use openshift_acme.Account.{AccountWorld, sync_account}

-- The calls of the work queue that follow `Get`.
pub data QueueCall : Type 0 where
  forget add_rate_limited done : String → QueueCall

unfoldable pub judge : String → Result (Unit {0}) → QueueCall
judge key (ok u) = forget key
judge key (err e) = add_rate_limited key

module _ {W : Type 0} (run : W → String → Result (Unit {0})) where
  -- The reply of `Get` is a key, with the surroundings in which it is worked on, or none where the
  -- queue shuts down. The result says whether the worker goes on; `Done` is deferred.
  unfoldable pub process_next : Option (W × String) → Bool × List QueueCall
  unfolding judge
  process_next none = (false, [])
  process_next (some (w, key)) = (true, judge key (run w key) ∷ done key ∷ [])

  -- The replies of `Get`, in their order; behind the last one the worker waits.
  unfoldable pub run_worker : List (Option (W × String)) → List QueueCall
  unfolding process_next
  run_worker [] = []
  run_worker (g ∷ gs) =
      let rest = run_worker gs in
      let (goes_on, calls) = process_next g in if goes_on then calls ++ rest else calls

abbrev sync_result : World → String → Result (Unit {0})
sync_result w key = (sync w key).1

unfoldable pub process_next_route_item : Option (World × String) → Bool × List QueueCall
process_next_route_item = process_next sync_result

unfoldable pub run_route_worker : List (Option (World × String)) → List QueueCall
run_route_worker = run_worker sync_result

unfoldable pub process_next_route_to_secret_item : Option (World × String) → Bool × List QueueCall
process_next_route_to_secret_item = process_next (λ w key. (sync_route_to_secret w key).1)

unfoldable pub run_secret_worker : List (Option (World × String)) → List QueueCall
run_secret_worker = run_worker (λ w key. (sync_route_to_secret w key).1)

unfoldable pub process_next_account_item : Option (AccountWorld × String) → Bool × List QueueCall
process_next_account_item = process_next (λ w key. (sync_account w key).1)

unfoldable pub run_account_worker : List (Option (AccountWorld × String)) → List QueueCall
run_account_worker = run_worker (λ w key. (sync_account w key).1)
