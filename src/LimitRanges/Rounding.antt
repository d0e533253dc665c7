-- ===== src/LimitRanges/Rounding.antt =====
-- The rounding of quotients of quantities.
use native.Mathlib.Nat.{div-add-mod', mod-lt}
use openshift_acme.Common.{
  ℕ, zero, suc, ◌+◌, ◌*◌, ◌/◌, ◌%◌, ◌≡◌, ◌≤◌, ◌<◌, ◌≢◌, refl, arith, ℤ, ltb, ltb→lt, if◌then◌else◌,
  Bool, true, false, Bool-cases, inl, inr,
}
use openshift_acme.LimitRanges.{round_half_down, magnitude, signed}

round_nearest :
    (n d : ℕ)
    → d ≢ 0
    → let q = n / d in
      let r = n % d in
      let rounded = if ltb d (2 * r) then q + 1 else q in
      (2 * (rounded * d) < 2 * n + d) × (2 * n ≤ 2 * (rounded * d) + d)
round_nearest n d h = elim (Bool-cases (ltb d (2 * (n % d)))) [
  | inl up ↦ rw up (
    omega (arith, div-add-mod' n d, mod-lt n {m = d} (omega arith), ltb→lt _ _ up),
    omega (arith, div-add-mod' n d, mod-lt n {m = d} (omega arith), ltb→lt _ _ up),
  )
  | inr down ↦ rw down (omega (arith, div-add-mod' n d), ground (arith, div-add-mod' n d, down))
]

magnitude-signed : (positive : Bool) (q : ℕ) → magnitude (signed positive q) ≡ q
unfolding signed
magnitude-signed true q = refl
magnitude-signed false zero = refl
magnitude-signed false (suc q) = refl

magnitude-rounded :
    (n d : ℤ)
    → magnitude (round_half_down n d) ≡ (
        if ltb (magnitude d) (2 * (magnitude n % magnitude d))
        then magnitude n / magnitude d + 1
        else magnitude n / magnitude d)
unfolding round_half_down
magnitude-rounded n d = elim (Bool-cases (ltb (magnitude d) (2 * (magnitude n % magnitude d)))) [
  | inl up ↦ rw up (magnitude-signed _ _)
  | inr down ↦ rw down (magnitude-signed _ _)
]

-- The rounded quotient is a nearest one to the exact quotient, in magnitude, and of two nearest ones it
-- is that towards zero: times the divisor it is less than half of the divisor above the dividend, or
-- at most half of the divisor below it.
pub round_half_down-nearest :
    (n d : ℤ)
    → magnitude d ≢ 0
    → (2 * (magnitude (round_half_down n d) * magnitude d) < 2 * magnitude n + magnitude d)
      × (2 * magnitude n ≤ 2 * (magnitude (round_half_down n d) * magnitude d) + magnitude d)
round_half_down-nearest n d h =
    rw (magnitude-rounded n d) (round_nearest (magnitude n) (magnitude d) h)
