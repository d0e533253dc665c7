-- ===== src/Kube/Managed.antt =====
-- pkg/util/util.go: which objects the controller manages.
use openshift_acme.Common.{
  String, ◌≡◌, ◌≢◌, ◌↔◌, Bool, true, false, Option, none, some, arith, if◌then◌else◌, str_eq,
  eq_iff, lookup,
}
use openshift_acme.Kube.{ObjectMeta}
use openshift_acme.Kube.Key.{temporary}

-- A map that has the key with the text "true".
unfoldable pub is_true : Option String → Bool
is_true none = false
is_true (some v) = str_eq v "true"

unfoldable pub is_temporary : ObjectMeta → Bool
unfolding is_true
is_temporary obj = if is_true (lookup temporary obj.labels) then true else false

unfoldable pub is_managed : ObjectMeta → String → Bool
unfolding is_true
is_managed obj key =
    if is_true (lookup key obj.annotations)
    then (if is_temporary obj then false else true)
    else false

is_managed_cases :
    (a t : Option String)
    → ((if is_true a then (if (if is_true t then true else false) then false else true) else false)
        ≡ true)
      ↔ ((a ≡ some "true") × (t ≢ some "true"))
unfolding is_true
is_managed_cases none t = (λ h. cc, λ h. cc (h.0))
is_managed_cases (some v) none =
    (λ h. ground (arith, eq_iff v "true"), λ h. ground (arith, eq_iff v "true", h.0))
is_managed_cases (some v) (some w) = (
  λ h. ground (arith, eq_iff v "true", eq_iff w "true"),
  λ h. ground (arith, eq_iff v "true", eq_iff w "true", h.0, h.1),
)

-- An object is managed exactly when its annotation `key` is "true" and its label that marks
-- temporary objects is not "true".
pub is_managed_iff :
    (obj : ObjectMeta) (key : String)
    → (is_managed obj key ≡ true)
      ↔ ((lookup key obj.annotations ≡ some "true") × (lookup temporary obj.labels ≢ some "true"))
unfolding is_managed is_temporary
is_managed_iff obj key = is_managed_cases (lookup key obj.annotations) (lookup temporary obj.labels)
