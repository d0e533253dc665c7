-- ===== src/Command/Ends.antt =====
-- The end of the command: how many steps its goroutines take, and for what they can wait for ever.
use openshift_acme.Common.{
  ℕ, zero, suc, ◌⊎◌, ◌≢◌, ◌+◌, ◌≤◌, ◌<◌, ◌*◌, ◌-◌, Bool, true, false, ◌≡◌, refl, arith, Bool-cases,
  inl, inr,
}
use openshift_acme.Command.Invariant.{Inv, Run-Inv, Fits, before, after, routes_fit, accounts_fit}
use openshift_acme.Signals.{first, second}
use openshift_acme.Command.{
  Phase, idle, syncing, working, draining, done, Controller, Move, synced, unsynced, shut_down,
  worker_skips, hangs, worker_ends, workers_ended, works, Main, preparing, electing, controlling,
  finishing, releasing, returned, Elector, absent, acquiring, leading, lost, stopped, Command, Step,
  signalled, watched, acquired, announces, loses, gives_up, releases, loses_late, fails, elects,
  interrupted, leads, cancelled, waited, returns, route_moves, account_moves, Run, begins, goes_on,
  Settled, unstarted, finished, never, ended,
}

-- The steps that a part has left, at most.
phase_left : Phase → ℕ → ℕ
phase_left idle n = 0
phase_left syncing n = 2 * n + 3
phase_left working n = 2
phase_left draining n = 1
phase_left done n = 0

controller_left : ℕ → Controller → ℕ
controller_left workers c = phase_left c.phase workers + 2 * c.active - c.hung

main_left : ℕ → Main → ℕ
main_left workers preparing = 6 * workers + 14
main_left workers electing = 6 * workers + 10
main_left workers controlling = 3
main_left workers finishing = 2
main_left workers releasing = 1
main_left workers returned = 0

elector_left : Elector → ℕ
elector_left absent = 0
elector_left acquiring = 3
elector_left leading = 2
elector_left lost = 1
elector_left stopped = 0

bit_left : Bool → ℕ
bit_left true = 0
bit_left false = 1

left : ℕ → Command → ℕ
left workers s =
    main_left workers s.main
    + elector_left s.elector
    + bit_left s.announced
    + bit_left s.stop
    + bit_left s.ctx_done
    + controller_left (workers + workers) s.route
    + controller_left workers s.account

Move-left :
    (workers : ℕ) (b : Bool) (c d : Controller)
    → Move b workers c d
    → c.hung ≤ c.active
    → controller_left workers d < controller_left workers c
unfolding controller_left phase_left
Move-left workers b c d (synced p) l = ground arith
Move-left workers b c d (unsynced h p) l = ground arith
Move-left workers b c d (shut_down h p) l = ground arith
Move-left workers b c d (worker_skips h p n k) l = ground arith
Move-left workers b c d (hangs p k) l = ground arith
Move-left workers b c d (worker_ends p n k) l = ground arith
Move-left workers b c d (workers_ended p n) l = ground arith

Step-left :
    (workers : ℕ) (s t : Command) → Step workers s t → Inv s → left workers t < left workers s
unfolding left main_left elector_left bit_left controller_left phase_left
Step-left workers s t (signalled (first h) k) i = ground arith
Step-left workers s t (signalled (second h) k) i = cc k
Step-left workers s t (watched h k) i = ground arith
Step-left workers s t (acquired h) i = ground arith
Step-left workers s t (announces h k) i = ground arith
Step-left workers s t (loses h) i = ground arith
Step-left workers s t (gives_up h k) i = ground arith
Step-left workers s t (releases h k) i = ground arith
Step-left workers s t (loses_late h k) i = ground arith
Step-left workers s t (fails h) i = ground arith
Step-left workers s t (elects h) i = ground arith
Step-left workers s t (interrupted h k) i = ground arith
Step-left workers s t (leads h k) i = ground arith
Step-left workers s t (cancelled h k) i = ground arith
Step-left workers s t (waited h k l) i = ground arith
Step-left workers s t (returns h k) i = ground arith
Step-left workers s t (route_moves m) i =
    ground (arith, Move-left (workers + workers) _ _ _ m (routes_fit i).hung_bound)
Step-left workers s t (account_moves m) i =
    ground (arith, Move-left workers _ _ _ m (accounts_fit i).hung_bound)

Run-left : (workers n : ℕ) (s : Command) → Run workers n s → n + left workers s ≤ 6 * workers + 17
unfolding left main_left elector_left bit_left controller_left phase_left
Run-left workers n s begins = omega arith
Run-left workers n s (goes_on r step) =
    omega (arith, Run-left workers _ _ r, Step-left workers _ _ step (Run-Inv workers _ _ r))

-- No worker comes back from a reconciliation that never returns.
Move-hung :
    (workers : ℕ) (b : Bool) (c d : Controller)
    → Move b workers c d
    → (works c.phase ≡ false → c.active ≡ 0)
    → c.hung ≤ c.active
    → c.hung ≤ d.hung
Move-hung workers b c d (synced p) f l = ground arith
Move-hung workers b c d (unsynced h p) f l = omega arith
Move-hung workers b c d (shut_down h p) f l = omega arith
Move-hung workers b c d (worker_skips h p n k) f l = omega arith
Move-hung workers b c d (hangs p k) f l = omega arith
Move-hung workers b c d (worker_ends p n k) f l = omega arith
Move-hung workers b c d (workers_ended p n) f l = omega arith

-- The workers in a reconciliation that never returns.
abbrev pub hanging : Command → ℕ
hanging s = s.route.hung + s.account.hung

unborn-hung : {m : Main} {led : Bool} {c : Controller} → Fits m led c → before m ≡ true → c.hung ≡ 0
unborn-hung f h = ground (arith, f.unborn, f.active_works, f.hung_bound)

over-hung : {m : Main} {led : Bool} {c : Controller} → Fits m led c → after m ≡ true → c.hung ≡ 0
over-hung {c = c} f h = go c.phase refl
  where
    go : (p : Phase) → c.phase ≡ p → c.hung ≡ 0
    go p e = ground (arith, f.over, f.active_works, f.hung_bound)

-- A controller with a done context has returned, has a step to make, or has a worker that hangs.
controller_goes_on :
    (workers : ℕ) (b : Bool) (c : Controller)
    → b ≡ true
    → Settled c ⊎ ((d : Controller) × Move b workers c d) ⊎ (0 < c.hung)
controller_goes_on workers b c h = go c.phase c.active c.hung refl refl refl
  where
    go :
        (p : Phase) (n m : ℕ)
        → c.phase ≡ p
        → c.active ≡ n
        → c.hung ≡ m
        → Settled c ⊎ ((d : Controller) × Move b workers c d) ⊎ (0 < c.hung)
    go idle n m e k l = inl (unstarted e)
    go syncing n m e k l = inr (inl (_, unsynced h e))
    go working n m e k l = inr (inl (_, shut_down h e))
    go draining zero m e k l = inr (inl (_, workers_ended e k))
    go draining (suc n) zero e k l = inr (inl (_, worker_ends e k (omega (arith, l))))
    go draining (suc n) (suc m) e k l = inr (inr (omega (arith, l)))
    go done n m e k l = inl (finished e)

module _ (workers : ℕ) (s : Command) where
  -- Some goroutine has a step to make, or a worker hangs.
  abbrev pub GoesOn : Type 0
  GoesOn = ((t : Command) × Step workers s t) ⊎ (0 < hanging s)

module _ (workers : ℕ) (s : Command) (cancelled_context : s.ctx_done ≡ true) where
  waiting_goes_on : s.main ≡ finishing → GoesOn workers s
  waiting_goes_on m =
      elim (controller_goes_on (workers + workers) s.ctx_done s.route cancelled_context) [
        | inr (inl (c, move)) ↦ inl (_, route_moves move)
        | inr (inr hung) ↦ inr (omega (arith, hung))
        | inl routes ↦ elim (controller_goes_on workers s.ctx_done s.account cancelled_context) [
          | inr (inl (c, move)) ↦ inl (_, account_moves move)
          | inr (inr hung) ↦ inr (omega (arith, hung))
          | inl accounts ↦ inl (_, waited m routes accounts)
        ]
      ]

  releasing_goes_on : s.main ≡ releasing → s.le_done ≡ true → (t : Command) × Step workers s t
  releasing_goes_on m le = go s.elector refl
    where
      go : (e : Elector) → s.elector ≡ e → (t : Command) × Step workers s t
      go absent e = (_, returns m (never e))
      go acquiring e = (_, gives_up e le)
      go leading e = (_, releases e le)
      go lost e = (_, loses_late e le)
      go stopped e = (_, returns m (ended e))

  main_goes_on : Inv s → s.stop ≡ true → s.main ≢ returned → GoesOn workers s
  main_goes_on i stop open_end = go s.main refl
    where
      go : (m : Main) → s.main ≡ m → GoesOn workers s
      go preparing m = inl (_, fails m)
      go electing m = inl (_, interrupted m stop)
      go controlling m = inl (_, cancelled m cancelled_context)
      go finishing m = waiting_goes_on m
      go releasing m = inl (releasing_goes_on m (ground (arith, i.0)))
      go returned m = absurd (open_end m)

hanging-open : (s : Command) → Inv s → 0 < hanging s → s.main ≢ returned
hanging-open s i h m =
    let over : after s.main ≡ true = rw m refl in
    omega (arith, h, over-hung (routes_fit i) over, over-hung (accounts_fit i) over)

Step-hanging : (workers : ℕ) (s t : Command) → Inv s → Step workers s t → hanging s ≤ hanging t
Step-hanging workers s t i (leads h k) =
    let early : before s.main ≡ true = rw h refl in
    omega (arith, unborn-hung (routes_fit i) early, unborn-hung (accounts_fit i) early)
Step-hanging workers s t i (route_moves m) =
    let f = routes_fit i in
    omega (arith, Move-hung (workers + workers) _ _ _ m f.active_works f.hung_bound)
Step-hanging workers s t i (account_moves m) =
    let f = accounts_fit i in omega (arith, Move-hung workers _ _ _ m f.active_works f.hung_bound)
Step-hanging workers s t i _ = omega arith

-- However the goroutines of the command interleave, a run with a number of workers has at most six
-- steps for each of them and 17 more: the turns of the workers', of the election's and of the caches'
-- loops are no steps. In every state that a run leads to, in which a signal has come and `Run` has not
-- returned, some goroutine has a step to make, or a worker is in a reconciliation that never returns.
-- In a state with such a worker `Run` has not returned, and no step ends such a worker.
pub command_ends :
    (workers n : ℕ) (s : Command)
    → Run workers n s
    → (n ≤ 6 * workers + 17)
      × (s.stop ≡ true → s.main ≢ returned → GoesOn workers s)
      × (0 < hanging s → s.main ≢ returned)
      × ((t : Command) → Step workers s t → hanging s ≤ hanging t)
command_ends workers n s r =
    let i = Run-Inv workers n s r in
    (
      omega (arith, Run-left workers n s r),
      λ stop open_end. elim (Bool-cases s.ctx_done) [
        | inl over ↦ main_goes_on workers s over i stop open_end
        | inr open_context ↦ inl (_, watched stop open_context)
      ],
      hanging-open s i,
      λ t. Step-hanging workers s t i,
    )
