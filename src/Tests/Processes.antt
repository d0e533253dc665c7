-- ===== src/Tests/Processes.antt =====
-- Runs of the commands of the controller and of the exposer.
use openshift_acme.Common.{
  ℕ, ◌≡◌, ◌≢◌, ◌⊎◌, ◌+◌, ◌*◌, ◌≤◌, ◌<◌, refl, true, false, some, [], ◌∷◌, arith,
}
use openshift_acme.Signals.{first}
use openshift_acme.Errors.{ok, not_found}
use openshift_acme.ExposerCommand.{ExposerEnvironment}
use openshift_acme.ExposerCommand.Serving
use openshift_acme.ExposerCommand.Serving.{closed, finished, waiting, Exposing}
use openshift_acme.Command.{
  Command, started, initial, Run, begins, goes_on, Step, Exits, controlling, returned, leading,
  lost, working, signalled, acquired, announces, elects, leads, route_moves, synced, hangs,
  interrupted, waited, gives_up, returns, unstarted, ended, stopped,
}
use openshift_acme.Command.Ends.{command_ends, hanging, GoesOn}
use openshift_acme.Command.Safety.{workers_hold_lock, ends_in_order}

-- The command with one worker is elected and starts its controllers, and the caches of the routes are
-- synced.
abbrev elected : Command
elected = record initial {
  main = controlling;
  elector = leading;
  led = true;
  announced = true;
  route = record { phase = working; active = 2; hung = 0 };
  account = started;
}

elected-Run : Run 1 5 elected
elected-Run =
    goes_on
      (goes_on
        (goes_on (goes_on (goes_on begins (elects refl)) (acquired refl)) (announces refl refl))
        (leads refl refl))
      (route_moves (synced refl))

workers_hold_lock_example : ((leading ≡ leading) ⊎ (leading ≡ lost)) × (false ≡ false)
workers_hold_lock_example = workers_hold_lock 1 5 elected elected-Run (omega arith)

-- A signal comes before the election.
abbrev interrupted_command : Command
interrupted_command = record initial {
  main = returned;
  elector = stopped;
  stop = true;
  ctx_done = true;
  le_done = true;
}

interrupted-Run : Run 1 6 interrupted_command
interrupted-Run =
    goes_on
      (goes_on
        (goes_on
          (goes_on (goes_on (goes_on begins (signalled (first refl) refl)) (elects refl))
            (interrupted refl refl))
          (waited refl (unstarted refl) (unstarted refl)))
        (gives_up refl refl))
      (returns refl (ended refl))

ends_in_order_example :
    (returned ≡ returned
      → (◌≡◌ {A = ℕ} 0 0) × (◌≡◌ {A = ℕ} 0 0) × (stopped ≢ leading) × (false ≡ false → true ≡ true))
    × (Exits interrupted_command → false ≡ false → (true ≡ true) ⊎ (stopped ≡ lost))
ends_in_order_example = ends_in_order 1 6 interrupted_command interrupted-Run

-- The elected command after a signal, with one of its workers in a reconciliation that never returns.
abbrev stopping : Command
stopping = record elected { stop = true; route = record { phase = working; active = 2; hung = 1 } }

stopping-Run : Run 1 7 stopping
stopping-Run =
    goes_on (goes_on elected-Run (signalled (first refl) refl))
      (route_moves (hangs refl (omega arith)))

command_ends_example :
    (7 ≤ 6 * 1 + 17)
    × (stopping.stop ≡ true → stopping.main ≢ returned → GoesOn 1 stopping)
    × (0 < hanging stopping → stopping.main ≢ returned)
    × ((t : Command) → Step 1 stopping t → hanging stopping ≤ hanging t)
command_ends_example = command_ends 1 7 stopping stopping-Run

abbrev environment : ExposerEnvironment
environment = record {
  port_messages = λ _. [];
  ip_messages = λ _. [];
  read_file = λ _. ok "";
  decimal = λ _. "5000";
}

-- The exposer cannot listen; a signal comes, and the server is shut down.
abbrev unheard : Exposing
unheard = record {
  main = waiting;
  server = closed;
  closer = finished;
  stop = true;
  ctx_done = true;
  errors = not_found ∷ [];
  serves = some (record { uri_to_response = []; addr = "0.0.0.0:5000"; listening_addr = "" });
}
