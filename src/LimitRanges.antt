-- ===== src/LimitRanges.antt =====
-- pkg/controller/route/route.go, `adjustContainerResourceRequirements`: the resources of an exposer
-- container against the limit ranges of its namespace.
pub mod Rounding
pub mod Minimum
use openshift_acme.Common.{
  ℕ, zero, suc, ◌+◌, ◌*◌, ◌/◌, ◌%◌, String, Bool, true, false, not, Option, none, some, List, [],
  ◌∷◌, if◌then◌else◌, ltb, ℤ, pos, negsuc, ◌*ℤ◌, ltb_ℤ, neg, lookup, insert,
}
use openshift_acme.Kube.Workloads.{
  Quantity, Quantities, ResourceList, Resources, LimitType, container, pod, other_type,
  LimitRangeItem, LimitRange,
}
use openshift_acme.Backoff.{wrap64}

abbrev pub magnitude : ℤ → ℕ
magnitude (pos n) = n
magnitude (negsuc n) = suc n

-- `n.Sign() >= 0`
abbrev is_nonneg : ℤ → Bool
is_nonneg (pos n) = true
is_nonneg (negsuc n) = false

abbrev same_sign : Bool → Bool → Bool
same_sign true b = b
same_sign false b = not b

-- The sign of a quotient that truncates towards zero.
signed : Bool → ℕ → ℤ
signed true n = pos n
signed false n = neg n

-- The quotient and the remainder of big.Int's QuoRem truncate towards zero, so they are those of the
-- magnitudes, with the signs.
unfoldable pub round_half_down : ℤ → ℤ → ℤ
unfolding signed
round_half_down n d =
    let positive = same_sign (is_nonneg n) (is_nonneg d) in
    let q = magnitude n / magnitude d in
    let r = magnitude n % magnitude d in
    if ltb (magnitude d) (2 * r) then signed positive (q + 1) else signed positive q

is_zero : ℤ → Bool
is_zero (pos zero) = true
is_zero _ = false

module _ (ops : Quantities) where
  open ops use {less, more, milli_value, from_milli}

  unfoldable pub quo_milli_round_half_down : Quantity → Quantity → ℤ
  unfolding is_zero round_half_down
  quo_milli_round_half_down num denom =
      if is_zero (milli_value denom)
      then pos 0
      else wrap64 (round_half_down (milli_value num *ℤ pos 1000) (milli_value denom))

  -- The list with the value raised to the minimum.
  unfoldable pub raised : String → Option Quantity → Quantity → ResourceList → ResourceList
  raised resource none value r = r
  raised resource (some least) value r = if less value least then insert resource least r else r

  -- The errors of the value that was there before it was raised: 1 if it is more than the maximum.
  excess : Option Quantity → Quantity → ℕ
  excess none value = 0
  excess (some most) value = if more value most then 1 else 0

  -- The body of the loop over the requests and the limits.
  unfoldable pub bound :
      String → Option Quantity → Option Quantity → Option Quantity → ResourceList → ResourceList × ℕ
  unfolding raised excess
  bound resource least most none r = (r, 0)
  bound resource least most (some value) r = (raised resource least value r, excess most value)

  abbrev quo : Quantity → Quantity → ℤ
  quo = quo_milli_round_half_down

  unfoldable pub limit_ratio :
      String → Option Quantity → Option Quantity → Option Quantity → ResourceList → ResourceList
  limit_ratio resource (some ratio) (some request) (some limit) requests =
      if ltb_ℤ (milli_value ratio) (quo limit request)
      then insert resource (from_milli (quo limit ratio)) requests
      else requests
  limit_ratio resource _ _ _ requests = requests

  -- One item and one resource: the bounds of the requests and the limits, then the ratio. The number
  -- counts the errors.
  unfoldable pub adjust_resource : String → LimitRangeItem → Resources → Resources × ℕ
  unfolding bound limit_ratio
  adjust_resource resource item res =
      let least = lookup resource item.min in
      let most = lookup resource item.max in
      let (requests, e) = bound resource least most (lookup resource res.requests) res.requests in
      let (limits, f) = bound resource least most (lookup resource res.limits) res.limits in
      let requests' =
        limit_ratio resource (lookup resource item.max_limit_request_ratio)
          (lookup resource requests) (lookup resource limits) requests in
      (record { requests = requests'; limits = limits }, e + f)

  unfoldable pub applies : LimitType → Bool
  applies container = true
  applies pod = true
  applies other_type = false

  unfoldable pub adjust_item : LimitRangeItem → Resources → Resources × ℕ
  unfolding applies
  adjust_item item res =
      if applies item.type
      then (let (res', e) = adjust_resource "memory" item res in
          let (res'', f) = adjust_resource "cpu" item res' in (res'', e + f))
      else (res, 0)

  unfoldable pub adjust_items : List LimitRangeItem → Resources → Resources × ℕ
  adjust_items [] res = (res, 0)
  adjust_items (item ∷ items) res =
      let (res', e) = adjust_item item res in
      let (res'', f) = adjust_items items res' in (res'', e + f)

  -- The container's resources after the function, and the number of the errors of the aggregate.
  unfoldable pub adjust_container : List LimitRange → Resources → Resources × ℕ
  adjust_container [] res = (res, 0)
  adjust_container (range ∷ ranges) res =
      let (res', e) = adjust_items range.limits res in
      let (res'', f) = adjust_container ranges res' in (res'', e + f)
