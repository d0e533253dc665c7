-- ===== src/LimitRanges/Minimum.antt =====
-- The limits of an exposer container against the minima of the limit ranges.
use mathlib.Core.Path.{subst}
use mathlib.Core.Option.{some-injective}
use openshift_acme.Common.{
  str_eq, eq_refl, String, ◌≡◌, ◌⊎◌, refl, sym, true, false, Bool-cases, Option, none, some, List,
  [], ◌∷◌, inl, inr, Any, lookup, lookup-insert, insert, eq_iff, ◌∙◌,
}
use openshift_acme.Kube.Workloads.{
  Quantity, Quantities, ResourceList, Resources, LimitRangeItem, LimitRange,
}
use openshift_acme.LimitRanges.{
  raised, bound, adjust_resource, applies, adjust_item, adjust_items, adjust_container,
}

-- `Cmp` orders the quantities strictly.
pub record IsOrder (ops : Quantities) : Type 0 where
  pub irreflexive : (q : Quantity) → ops.less q q ≡ false
  pub transitive :
      (a b c : Quantity) → ops.less a b ≡ true → ops.less b c ≡ true → ops.less a c ≡ true

module _ (ops : Quantities) (order : IsOrder ops) (key : String) (least : Quantity) where
  -- The list has no value for the key that is less than the minimum.
  abbrev IsAtLeast : ResourceList → Type 0
  IsAtLeast r = (value : Quantity) → lookup key r ≡ some value → ops.less value least ≡ false

  -- The item applies to the container and gives the minimum for the key.
  abbrev pub IsMinimum : LimitRangeItem → Type 0
  IsMinimum item = (applies ops item.type ≡ true) × (lookup key item.min ≡ some least)

  not_less :
      (value m : Quantity)
      → ops.less value least ≡ false
      → ops.less value m ≡ true
      → ops.less m least ≡ false
  not_less value m h up = elim (Bool-cases (ops.less m least)) [
    | inl below ↦ (let above = order.transitive value m least up below in cc)
    | inr fine ↦ fine
  ]

  insert-IsAtLeast :
      (resource : String) (m : Quantity) (r : ResourceList)
      → (resource ≡ key → ops.less m least ≡ false)
      → IsAtLeast r
      → IsAtLeast (insert resource m r)
  insert-IsAtLeast resource m r fine h v e = elim (Bool-cases (str_eq resource key)) [
    | inl same ↦
        let found = sym (lookup-insert resource key m r) ∙ e in
        let eq = some-injective _ _ (rw same at found) in
        subst (λ q. ops.less q least ≡ false) eq (fine ((eq_iff resource key).0 same))
    | inr other ↦ let found = sym (lookup-insert resource key m r) ∙ e in h v (rw other at found)
  ]

  raised-IsAtLeast :
      (resource : String) (m : Option Quantity) (value : Quantity) (r : ResourceList)
      → lookup resource r ≡ some value
      → IsAtLeast r
      → IsAtLeast (raised ops resource m value r)
  unfolding raised
  raised-IsAtLeast resource none value r found h = h
  raised-IsAtLeast resource (some m) value r found h = elim (Bool-cases (ops.less value m)) [
    | inl up ↦
        rw up (
          insert-IsAtLeast resource m r (λ same. not_less value m (h value (rw same at found)) up)
            h)
    | inr fine ↦ rw fine h
  ]

  bound-IsAtLeast :
      (resource : String) (m most found : Option Quantity) (r : ResourceList)
      → lookup resource r ≡ found
      → IsAtLeast r
      → IsAtLeast (bound ops resource m most found r).0
  unfolding bound
  bound-IsAtLeast resource m most none r e h = h
  bound-IsAtLeast resource m most (some value) r e h = raised-IsAtLeast resource m value r e h

  bound-raises :
      (most found : Option Quantity) (r : ResourceList)
      → lookup key r ≡ found
      → IsAtLeast (bound ops key (some least) most found r).0
  unfolding bound raised
  bound-raises most none r e = λ v found. cc
  bound-raises most (some value) r e = elim (Bool-cases (ops.less value least)) [
    | inl up ↦ rw up (λ v found.
        let found' = sym (lookup-insert key key least r) ∙ found in
        let eq = some-injective _ _ (rw (eq_refl key) at found') in
        subst (λ q. ops.less q least ≡ false) eq (order.irreflexive least))
    | inr fine ↦
        rw fine (λ v found.
          subst (λ q. ops.less q least ≡ false) (some-injective _ _ (sym e ∙ found)) fine)
  ]

  resource-IsAtLeast :
      (resource : String) (item : LimitRangeItem) (res : Resources)
      → IsAtLeast res.limits
      → IsAtLeast (adjust_resource ops resource item res).0.limits
  unfolding adjust_resource
  resource-IsAtLeast resource item res h = bound-IsAtLeast resource _ _ _ res.limits refl h

  resource-raises :
      (item : LimitRangeItem) (res : Resources)
      → lookup key item.min ≡ some least
      → IsAtLeast (adjust_resource ops key item res).0.limits
  unfolding adjust_resource
  resource-raises item res e = rw e (bound-raises _ _ res.limits refl)

  item-IsAtLeast :
      (item : LimitRangeItem) (res : Resources)
      → IsAtLeast res.limits
      → IsAtLeast (adjust_item ops item res).0.limits
  unfolding adjust_item
  item-IsAtLeast item res h = elim (Bool-cases (applies ops item.type)) [
    | inl serves ↦
        rw serves (resource-IsAtLeast "cpu" item _ (resource-IsAtLeast "memory" item res h))
    | inr other ↦ rw other h
  ]

  item-raises :
      (item : LimitRangeItem) (res : Resources)
      → applies ops item.type ≡ true
      → (key ≡ "memory") ⊎ (key ≡ "cpu")
      → lookup key item.min ≡ some least
      → IsAtLeast (adjust_item ops item res).0.limits
  unfolding adjust_item
  item-raises item res serves (inl memory) e = rw serves (
      resource-IsAtLeast "cpu" item _ (
        subst (λ k. IsAtLeast (adjust_resource ops k item res).0.limits) memory
          (resource-raises item res e)))
  item-raises item res serves (inr cpu) e = rw serves (
      (subst
        (λ k.
          IsAtLeast (adjust_resource ops k item (adjust_resource ops "memory" item res).0).0.limits)
        cpu (resource-raises item _ e)))

  items-IsAtLeast :
      (items : List LimitRangeItem) (res : Resources)
      → IsAtLeast res.limits
      → IsAtLeast (adjust_items ops items res).0.limits
  unfolding adjust_items
  items-IsAtLeast [] res h = h
  items-IsAtLeast (item ∷ items) res h = items-IsAtLeast items _ (item-IsAtLeast item res h)

  items-raise :
      (items : List LimitRangeItem) (res : Resources)
      → Any IsMinimum items
      → (key ≡ "memory") ⊎ (key ≡ "cpu")
      → IsAtLeast (adjust_items ops items res).0.limits
  unfolding adjust_items
  items-raise [] res m k = absurd m
  items-raise (item ∷ items) res (inl m) k =
      items-IsAtLeast items _ (item-raises item res m.0 k m.1)
  items-raise (item ∷ items) res (inr later) k = items-raise items _ later k

  container-IsAtLeast :
      (ranges : List LimitRange) (res : Resources)
      → IsAtLeast res.limits
      → IsAtLeast (adjust_container ops ranges res).0.limits
  unfolding adjust_container
  container-IsAtLeast [] res h = h
  container-IsAtLeast (range ∷ ranges) res h =
      container-IsAtLeast ranges _ (items-IsAtLeast range.limits res h)

  container-raises :
      (ranges : List LimitRange) (res : Resources)
      → (key ≡ "memory") ⊎ (key ≡ "cpu")
      → Any (λ range. Any IsMinimum range.limits) ranges
      → IsAtLeast (adjust_container ops ranges res).0.limits
  unfolding adjust_container
  container-raises [] res k m = absurd m
  container-raises (range ∷ ranges) res k (inl m) =
      container-IsAtLeast ranges _ (items-raise range.limits res m k)
  container-raises (range ∷ ranges) res k (inr later) = container-raises ranges _ k later

  -- However the limit ranges follow each other, no limit of the adjusted container for memory or cpu is
  -- less than a minimum that an item for containers or pods of one of them gives. Assumed is that the
  -- comparison of quantities is a strict order.
  pub limits_above_minimum :
      (ranges : List LimitRange) (res : Resources) (value : Quantity)
      → (key ≡ "memory") ⊎ (key ≡ "cpu")
      → Any (λ range. Any IsMinimum range.limits) ranges
      → lookup key (adjust_container ops ranges res).0.limits ≡ some value
      → ops.less value least ≡ false
  limits_above_minimum ranges res value k m = container-raises ranges res k m value
