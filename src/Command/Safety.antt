-- ===== src/Command/Safety.antt =====
-- The lock of the leader election, the workers, and the end of the command.
use openshift_acme.Common.{ℕ, ◌+◌, ◌<◌, true, false, ◌≡◌, ◌≢◌, refl, arith, inl, inr, ◌⊎◌}
use openshift_acme.Signals.{first, second}
use openshift_acme.Command.{
  returned, Elector, leading, lost, Command, Run, Exits, second_signal, lock_lost, too_late,
}
use openshift_acme.Command.Invariant.{Inv, Run-Inv, routes_fit, accounts_fit, has_lock}

has_lock-cases : (e : Elector) → has_lock e ≡ true → (e ≡ leading) ⊎ (e ≡ lost)
has_lock-cases leading h = inl refl
has_lock-cases lost h = inr refl
has_lock-cases _ h = cc h

exit_cause :
    {s : Command} → Exits s → Inv s → s.failed ≡ false → (s.stop ≡ true) ⊎ (s.elector ≡ lost)
exit_cause (second_signal (second h) l) i k = inl h
exit_cause (second_signal (first h) l) i k = cc l
exit_cause (lock_lost h l) i k = inr h
exit_cause (too_late h l) i k = inl (ground (arith, i))

-- In every state that a run leads to, if a worker of either controller runs, then the elector holds the
-- lock or has lost it, and its context is not done, so that it does not release the lock.
pub workers_hold_lock :
    (workers n : ℕ) (s : Command)
    → Run workers n s
    → 0 < s.route.active + s.account.active
    → ((s.elector ≡ leading) ⊎ (s.elector ≡ lost)) × (s.le_done ≡ false)
workers_hold_lock workers n s r active =
    let i = Run-Inv workers n s r in
    let f = routes_fit i in
    let g = accounts_fit i in
    let at_work : (has_lock s.elector ≡ true) × (s.le_done ≡ false) =
      ground (arith, i, f.over, f.led_first, f.active_works, g.over, g.led_first, g.active_works) in
    (has_lock-cases s.elector at_work.0, at_work.1)

-- Once `Run` has returned, no worker runs, the elector does not hold the lock, and if no error was
-- returned then a signal has come. Before that, the process only exits if a signal has come, the lock
-- was lost, or an error is to be returned.
pub ends_in_order :
    (workers n : ℕ) (s : Command)
    → Run workers n s
    → (s.main ≡ returned
        → (s.route.active ≡ 0)
          × (s.account.active ≡ 0)
          × (s.elector ≢ leading)
          × (s.failed ≡ false → s.stop ≡ true))
      × (Exits s → s.failed ≡ false → (s.stop ≡ true) ⊎ (s.elector ≡ lost))
ends_in_order workers n s r =
    let i = Run-Inv workers n s r in
    let f = routes_fit i in
    let g = accounts_fit i in
    (
      λ ended. ground (arith, i, f.over, f.active_works, g.over, g.active_works),
      λ x h. exit_cause x i h,
    )
