-- ===== src/Backoff.antt =====
-- pkg/controller/route/route.go, `sync`: the delay after failed orders.
use openshift_acme.Common.{
  ℕ, zero, suc, ◌+◌, ◌-◌, ◌%◌, ◌^◌, ◌≡◌, refl, arith, if◌then◌else◌, ltb, ℤ, pos, negsuc, pos_part,
  neg_part, ◌*ℤ◌, ◌<ℤ◌, leb_ℤ,
}
use openshift_acme.Kube.{Duration}

-- The int64 that an integer wraps around to.
unfoldable pub wrap64 : ℤ → ℤ
wrap64 a =
    let u = (pos_part a + (2 ^ 64 - neg_part a % 2 ^ 64)) % 2 ^ 64 in
    if ltb u (2 ^ 63) then pos u else negsuc (2 ^ 64 - 1 - u)

-- The rounds of the loop that are left, with the variable `backoff`.
unfoldable pub backoff_loop : ℕ → Duration → Duration → Duration → Duration
backoff_loop zero initial max backoff = backoff
backoff_loop (suc n) initial max backoff =
    let next = wrap64 (backoff *ℤ initial) in
    let rest = backoff_loop n initial max next in if leb_ℤ max next then max else rest

-- `Failures` is an int: a negative number makes no round.
unfoldable pub order_backoff : Duration → Duration → ℤ → Duration
unfolding backoff_loop
order_backoff initial max failures = backoff_loop (pos_part failures) initial max (pos 0)

zero-times : (a : ℤ) → wrap64 (pos 0 *ℤ a) ≡ pos 0
unfolding wrap64 ◌*ℤ◌
zero-times a = ground arith

backoff_loop-zero :
    (n : ℕ) (initial max : Duration) → pos 0 <ℤ max → backoff_loop n initial max (pos 0) ≡ pos 0
unfolding backoff_loop
backoff_loop-zero zero initial max h = refl
backoff_loop-zero (suc n) initial max h =
    rw (zero-times initial) (ground (arith, backoff_loop-zero n initial max h))

-- With a positive upper limit the delay is 0 after any number of failures, whatever the initial
-- delay: the loop multiplies a delay that starts at 0.
pub order_backoff-zero :
    (initial max : Duration) (failures : ℤ)
    → pos 0 <ℤ max
    → order_backoff initial max failures ≡ pos 0
unfolding order_backoff
order_backoff-zero initial max failures h = backoff_loop-zero (pos_part failures) initial max h
