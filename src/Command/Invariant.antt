-- ===== src/Command/Invariant.antt =====
-- What holds in every state of the command.
use openshift_acme.Common.{ℕ, ◌≤◌, Bool, true, false, ◌≡◌, refl, arith}
use openshift_acme.Signals.{first, second}
use openshift_acme.Command.{
  Phase, idle, done, Controller, Move, synced, unsynced, shut_down, worker_skips, hangs,
  worker_ends, workers_ended, works, Main, preparing, electing, finishing, releasing, returned,
  Elector, absent, leading, lost, stopped, Command, Step, signalled, watched, acquired, announces,
  loses, gives_up, releases, loses_late, fails, elects, interrupted, leads, cancelled, waited,
  returns, route_moves, account_moves, initial, Run, begins, goes_on, Settled, unstarted, finished,
  Gone, never, ended,
}

-- Before the controllers are started.
abbrev pub before : Main → Bool
before preparing = true
before electing = true
before _ = false

-- After the wait for the controllers.
abbrev pub after : Main → Bool
after releasing = true
after returned = true
after _ = false

-- After the wait for a signal or an error.
abbrev pub leaving : Main → Bool
leaving finishing = true
leaving releasing = true
leaving returned = true
leaving _ = false

abbrev pub quiet : Phase → Bool
quiet idle = true
quiet done = true
quiet _ = false

abbrev pub has_lock : Elector → Bool
has_lock leading = true
has_lock lost = true
has_lock _ = false

abbrev pub is_gone : Elector → Bool
is_gone absent = true
is_gone stopped = true
is_gone _ = false

-- What a controller is to the command.
pub record Fits (m : Main) (led : Bool) (c : Controller) : Type 0 where
  pub unborn : before m ≡ true → c.phase ≡ idle
  pub over : after m ≡ true → quiet c.phase ≡ true
  pub led_first : quiet c.phase ≡ false → led ≡ true
  pub active_works : works c.phase ≡ false → c.active ≡ 0
  pub hung_bound : c.hung ≤ c.active

abbrev pub Inv : Command → Type 0
Inv s =
    (after s.main ≡ s.le_done)
    × (s.led ≡ true → s.le_done ≡ false → has_lock s.elector ≡ true)
    × (s.main ≡ preparing → s.elector ≡ absent)
    × (s.elector ≡ absent → s.led ≡ false)
    × (s.announced ≡ true → s.led ≡ true)
    × (s.ctx_done ≡ true → s.le_done ≡ false → s.stop ≡ true)
    × (leaving s.main ≡ true → s.failed ≡ false → s.stop ≡ true)
    × (s.main ≡ returned → is_gone s.elector ≡ true)
    × Fits s.main s.led s.route
    × Fits s.main s.led s.account

pub routes_fit : {s : Command} → Inv s → Fits s.main s.led s.route
routes_fit (_, _, _, _, _, _, _, _, f, _) = f

pub accounts_fit : {s : Command} → Inv s → Fits s.main s.led s.account
accounts_fit (_, _, _, _, _, _, _, _, _, f) = f

Settled-quiet : (c : Controller) → Settled c → quiet c.phase ≡ true
Settled-quiet c (unstarted h) = rw h refl
Settled-quiet c (finished h) = rw h refl

Gone-is_gone : (e : Elector) → Gone e → is_gone e ≡ true
Gone-is_gone e (never h) = rw h refl
Gone-is_gone e (ended h) = rw h refl

-- Only a controller that runs moves, it stops with its workers ended, and no more of them hang than
-- run.
Move-runs :
    (b : Bool) (workers : ℕ) (c d : Controller)
    → Move b workers c d
    → c.hung ≤ c.active
    → (quiet c.phase ≡ false) × (works d.phase ≡ false → d.active ≡ 0) × (d.hung ≤ d.active)
Move-runs b workers c d (synced p) l = (rw p refl, λ e. cc e, omega arith)
Move-runs b workers c d (unsynced h p) l = (rw p refl, λ e. cc e, l)
Move-runs b workers c d (shut_down h p) l = (rw p refl, λ e. cc e, l)
Move-runs b workers c d (worker_skips h p n k) l = (rw p refl, λ e. cc (e, p), k)
Move-runs b workers c d (hangs p k) l = (ground (arith, p), λ e. cc (e, p), omega (arith, k))
Move-runs b workers c d (worker_ends p n k) l = (rw p refl, λ e. cc (e, p), k)
Move-runs b workers c d (workers_ended p n) l = (rw p refl, λ e. n, l)

Move-Fits :
    (m : Main) (led b : Bool) (workers : ℕ) (c d : Controller)
    → Move b workers c d
    → Fits m led c
    → Fits m led d
Move-Fits m led b workers c d move f =
    let (runs, ends, bound) = Move-runs b workers c d move f.hung_bound in
    record {
      unborn = λ e. ground (arith, f.unborn, runs);
      over = λ e. ground (arith, f.over, runs);
      led_first = λ e. f.led_first runs;
      active_works = ends;
      hung_bound = bound;
    }

Step-Inv : (workers : ℕ) (s t : Command) → Step workers s t → Inv s → Inv t
Step-Inv workers s t (signalled (first h) k) i = ground arith
Step-Inv workers s t (signalled (second h) k) i = cc k
Step-Inv workers s t (watched h k) i = ground arith
Step-Inv workers s t (acquired h) i = ground arith
Step-Inv workers s t (announces h k) i = ground arith
Step-Inv workers s t (loses h) i = ground arith
Step-Inv workers s t (gives_up h k) i = ground arith
Step-Inv workers s t (releases h k) i = ground arith
Step-Inv workers s t (loses_late h k) i = ground arith
Step-Inv workers s t (fails h) i = ground arith
Step-Inv workers s t (elects h) i = ground arith
Step-Inv workers s t (interrupted h k) i = ground arith
Step-Inv workers s t (leads h k) i = ground arith
Step-Inv workers s t (cancelled h k) i = ground arith
Step-Inv workers s t (waited h k l) i = ground arith
Step-Inv workers s t (returns h k) i = ground arith
Step-Inv workers s t (route_moves m) i = ground (arith, Move-Fits _ _ _ _ _ _ m (routes_fit i))
Step-Inv workers s t (account_moves m) i = ground (arith, Move-Fits _ _ _ _ _ _ m (accounts_fit i))

Inv-initial : Inv initial
Inv-initial = ground arith

pub Run-Inv : (workers n : ℕ) (s : Command) → Run workers n s → Inv s
Run-Inv workers n s begins = Inv-initial
Run-Inv workers n s (goes_on r step) = Step-Inv workers _ s step (Run-Inv workers _ _ r)
