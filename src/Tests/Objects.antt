-- ===== src/Tests/Objects.antt =====
-- Routes with labels, annotations and conditions.
use openshift_acme.Common.{
  String, ◌≡◌, ◌≢◌, ◌↔◌, refl, true, false, none, some, List, [], ◌∷◌, pos, lookup, All, Any, Dict,
  flatten,
}
use openshift_acme.Errors.{ok}
use openshift_acme.Kube.{ObjectMeta, Route, Condition}
use openshift_acme.Kube.Key
use openshift_acme.Kube.Managed.{is_managed, is_temporary}
use openshift_acme.Kube.Admitted.{is_admitted, is_admitted_iff, IsAdmission, IsNotRefused}
use openshift_acme.Effects.{patch_status}
use openshift_acme.Status.{StatusCodec, update_status, zero_status}
use openshift_acme.Status.Patch.{update_status_lem}

abbrev meta : Dict String → Dict String → ObjectMeta
meta labels annotations = record {
  name = "shop";
  namespace = "web";
  uid = "u1";
  resource_version = "1";
  generation = 4;
  creation_timestamp = pos 0;
  deletion_timestamp = none;
  labels = labels;
  annotations = annotations;
  owner_references = [];
}

abbrev managed : ObjectMeta
managed = meta [] (("kubernetes.io/tls-acme", "true") ∷ [])

temporary_unmanaged :
    is_managed
      (meta ((Key.temporary, "true") ∷ []) (("kubernetes.io/tls-acme", "true") ∷ []))
      "kubernetes.io/tls-acme"
    ≡ false
unfolding is_managed is_temporary lookup
temporary_unmanaged = refl

abbrev route : List (List Condition) → Dict String → Route
route ingress annotations = record {
  meta = meta [] annotations;
  host = "shop.example";
  path = "";
  port = none;
  tls = none;
  to_kind = "Service";
  to_name = "shop";
  ingress = ingress;
}

-- Admitted by one router and refused by another.
abbrev refused : Route
refused =
    route
      ((record { type = "Admitted"; status = "True" } ∷ [])
        ∷ (record { type = "Admitted"; status = "False" } ∷ [])
        ∷ [])
      []

is_admitted_iff_example :
    (is_admitted refused ≡ true)
    ↔ (Any IsAdmission (flatten refused.ingress) × All IsNotRefused (flatten refused.ingress))
is_admitted_iff_example = is_admitted_iff refused

refused_not_admitted : is_admitted refused ≡ false
unfolding is_admitted
refused_not_admitted = refl

abbrev codec : StatusCodec
codec = record {
  decode = λ _. some zero_status;
  encode_yaml = λ _. some "failures: 0";
  encode_json = λ _. some "{}";
}

update_status_example :
    (lookup Key.status (route [] []).meta.annotations ≡ some "failures: 0"
      → update_status codec (λ _. ok tt) (route [] []) zero_status ≡ ([], ok tt))
    × (lookup Key.status (route [] []).meta.annotations ≢ some "failures: 0"
        → update_status codec (λ _. ok tt) (route [] []) zero_status
          ≡ (patch_status "web" "shop" "{}" ∷ [], ok tt))
update_status_example =
    update_status_lem codec (λ _. ok tt) (route [] []) zero_status "failures: 0" "{}" refl refl
