-- ===== src/Command.antt =====
-- pkg/cmd/openshift-acme-controller/openshift-acme-controller.go, `Run`, with pkg/signals/signal.go and
-- the `Run` of both controllers: the goroutines of the command, as steps in any order. The leader
-- elector of client-go and the caches are not part of the repository: the elector acquires, loses and
-- releases the lock by steps of its own, and a cache is synced at any time. A worker is only followed
-- from its start to its end, or to a reconciliation that never returns; the turns of its loop are no
-- steps.
pub mod Ends
pub mod Invariant
pub mod Safety
use openshift_acme.Common.{ℕ, suc, ◌+◌, ◌≤◌, ◌<◌, Bool, true, false, ◌≡◌}
use openshift_acme.Signals.{Signal, is_first}

-- A controller: before `Run`, waiting for its caches, with workers, after the shutdown of its queues,
-- and after the wait for its workers.
pub data Phase : Type 0 where
  idle syncing working draining done : Phase

-- The workers have been started, and have not been waited for.
abbrev pub works : Phase → Bool
works working = true
works draining = true
works _ = false

-- `active` is the number of the workers that run, and `hung` that of those whose reconciliation never
-- returns.
pub record Controller : Type 0 where
  pub phase : Phase
  pub active : ℕ
  pub hung : ℕ

-- The steps of `Run` of a controller with a number of workers; `cancelled` tells whether its context
-- is done.
pub data Move (cancelled : Bool) (workers : ℕ) (c : Controller) : Controller → Type 0 where
  synced :
      c.phase ≡ syncing
      → Move cancelled workers c (record { phase = working; active = workers; hung = 0 })
  unsynced :
      cancelled ≡ true
      → c.phase ≡ syncing
      → Move cancelled workers c (record c { phase = draining })
  shut_down :
      cancelled ≡ true
      → c.phase ≡ working
      → Move cancelled workers c (record c { phase = draining })
  -- The context is done before the goroutine of the worker has started.
  worker_skips :
      {n : ℕ}
      → cancelled ≡ true
      → c.phase ≡ working
      → c.active ≡ suc n
      → c.hung ≤ n
      → Move cancelled workers c (record c { active = n })
  hangs :
      works c.phase ≡ true
      → c.hung < c.active
      → Move cancelled workers c (record c { hung = suc c.hung })
  worker_ends :
      {n : ℕ}
      → c.phase ≡ draining
      → c.active ≡ suc n
      → c.hung ≤ n
      → Move cancelled workers c (record c { active = n })
  workers_ended :
      c.phase ≡ draining → c.active ≡ 0 → Move cancelled workers c (record c { phase = done })

-- `Run` of the controller of the routes, with a number of workers for each of its two queues.
abbrev pub RouteMove : Bool → ℕ → Controller → Controller → Type 0
RouteMove cancelled workers = Move cancelled (workers + workers)

-- `Run` of the controller of the accounts.
abbrev pub AccountMove : Bool → ℕ → Controller → Controller → Type 0
AccountMove cancelled workers = Move cancelled workers

-- Where the goroutine of `Run` is: before the election, in the select, before `<-ctx.Done()`, before
-- `wg.Wait()`, before `leWg.Wait()`, and after the return.
pub data Main : Type 0 where
  preparing electing controlling finishing releasing returned : Main

-- `le.Run`: not started, before and after it has acquired the lock, after it has lost it, and ended.
pub data Elector : Type 0 where
  absent acquiring leading lost stopped : Elector

-- `led` is whether the elector has ever acquired the lock; `announced`, `stop`, `ctx_done` and
-- `le_done` are whether `leChan`, `stopCh`, `ctx` and `leCtx` are closed; `failed` is whether `Run`
-- returns an error.
pub record Command : Type 0 where
  pub main : Main
  pub elector : Elector
  pub led : Bool
  pub announced : Bool
  pub stop : Bool
  pub ctx_done : Bool
  pub le_done : Bool
  pub failed : Bool
  pub route : Controller
  pub account : Controller

-- A controller that was not started, or has returned.
pub data Settled (c : Controller) : Type 0 where
  unstarted : c.phase ≡ idle → Settled c
  finished : c.phase ≡ done → Settled c

-- An elector that was not started, or has returned.
pub data Gone (e : Elector) : Type 0 where
  never : e ≡ absent → Gone e
  ended : e ≡ stopped → Gone e

abbrev pub started : Controller
started = record { phase = syncing; active = 0; hung = 0 }

-- A step of one of the goroutines, with the option `workers`.
pub data Step (workers : ℕ) (s : Command) : Command → Type 0 where
  -- The first signal closes `stopCh`, and the watcher of `Run` cancels `ctx`.
  signalled :
      (signal : Signal s.stop) → is_first signal ≡ true → Step workers s (record s { stop = true })
  watched : s.stop ≡ true → s.ctx_done ≡ false → Step workers s (record s { ctx_done = true })
  -- `le.Run`, and its callback `OnStartedLeading`, which runs in a goroutine.
  acquired : s.elector ≡ acquiring → Step workers s (record s { elector = leading; led = true })
  announces : s.led ≡ true → s.announced ≡ false → Step workers s (record s { announced = true })
  loses : s.elector ≡ leading → Step workers s (record s { elector = lost })
  gives_up :
      s.elector ≡ acquiring → s.le_done ≡ true → Step workers s (record s { elector = stopped })
  releases :
      s.elector ≡ leading → s.le_done ≡ true → Step workers s (record s { elector = stopped })
  loses_late : s.elector ≡ lost → s.le_done ≡ true → Step workers s (record s { elector = stopped })
  -- The goroutine of `Run`.
  fails : s.main ≡ preparing → Step workers s (record s { main = finishing; failed = true })
  elects : s.main ≡ preparing → Step workers s (record s { main = electing; elector = acquiring })
  interrupted : s.main ≡ electing → s.stop ≡ true → Step workers s (record s { main = finishing })
  leads :
      s.main ≡ electing
      → s.announced ≡ true
      → Step workers s (record s { main = controlling; route = started; account = started })
  cancelled :
      s.main ≡ controlling → s.ctx_done ≡ true → Step workers s (record s { main = finishing })
  waited :
      s.main ≡ finishing
      → Settled s.route
      → Settled s.account
      → Step workers s (record s { main = releasing; le_done = true; ctx_done = true })
  returns : s.main ≡ releasing → Gone s.elector → Step workers s (record s { main = returned })
  -- The controllers.
  route_moves :
      {c : Controller}
      → RouteMove s.ctx_done workers s.route c
      → Step workers s (record s { route = c })
  account_moves :
      {c : Controller}
      → AccountMove s.ctx_done workers s.account c
      → Step workers s (record s { account = c })

-- How the process ends before `Run` returns: by the second signal, and in `OnStoppedLeading`, at once
-- if the lock was lost, or three seconds later if `leCtx` is done.
pub data Exits (s : Command) : Type 0 where
  second_signal : (signal : Signal s.stop) → is_first signal ≡ false → Exits s
  lock_lost : s.elector ≡ lost → s.le_done ≡ false → Exits s
  too_late : s.elector ≡ stopped → s.le_done ≡ true → Exits s

abbrev pub initial : Command
initial = record {
  main = preparing;
  elector = absent;
  led = false;
  announced = false;
  stop = false;
  ctx_done = false;
  le_done = false;
  failed = false;
  route = record { phase = idle; active = 0; hung = 0 };
  account = record { phase = idle; active = 0; hung = 0 };
}

-- The states that a number of steps leads to from the start of `Run`.
pub data Run (workers : ℕ) : ℕ → Command → Type 0 where
  begins : Run workers 0 initial
  goes_on : {n : ℕ} {s t : Command} → Run workers n s → Step workers s t → Run workers (suc n) t
