-- ===== src/Signals.antt =====
-- pkg/signals/signal.go: the channel that the first signal closes.
use openshift_acme.Common.{Bool, true, false, ◌≡◌}

-- What a signal does, with whether the channel is closed: the first one closes it, and the second one
-- ends the process. Any further signal would find no process.
pub data Signal (closed : Bool) : Type 0 where
  first : closed ≡ false → Signal closed
  second : closed ≡ true → Signal closed

-- The channel after a signal, if the process goes on.
abbrev pub is_first : {closed : Bool} → Signal closed → Bool
is_first (first h) = true
is_first (second h) = false
