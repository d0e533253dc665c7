-- ===== src/Workers/Retries.antt =====
-- Workers: which keys a worker puts back.
use openshift_acme.Common.{String, ◌≡◌, Option, none, some, List, [], ◌∷◌, Any, ◌⊎◌}
use openshift_acme.Errors.{Error, Result, err}
use openshift_acme.World.{World}
use openshift_acme.Workers.{QueueCall, add_rate_limited}

module _ {W : Type 0} (run : W → String → Result (Unit {0})) (key : String) where
  -- The queue hands out the key before it shuts down, and the work on it fails.
  abbrev pub Fails : List (Option (W × String)) → Type 0
  Fails [] = ⊥
  Fails (none ∷ gs) = ⊥
  Fails (some (w, k) ∷ gs) = ((k ≡ key) × ((e : Error) × (run w k ≡ err e))) ⊎ Fails gs

  abbrev pub PutsBack : List QueueCall → Type 0
  PutsBack calls = Any (λ c. c ≡ add_rate_limited key) calls
