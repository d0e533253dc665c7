-- ===== src/Tests/Issuers.antt =====
-- Issuers in a namespace and in the global one.
use openshift_acme.Common.{
  String, Dict, ◌≡◌, ◌↔◌, ◌⊎◌, refl, true, none, some, [], ◌∷◌, pos, ◌<ℤ◌, lookup, str_eq,
  if◌then◌else◌,
}
use openshift_acme.Errors.{ok, err, not_found}
use openshift_acme.Kube.{ObjectMeta, ConfigMap, Secret, Time}
use openshift_acme.Kube.Key
use openshift_acme.Issuer.{
  CertIssuer, IssuerCaches, acme, priority, less, atoi, issuer_for_object, issuer_config_maps,
}
use openshift_acme.Issuer.Preference.{less_both_iff}
use openshift_acme.Issuer.Candidates.{IsCandidate, Gives, issuer_origin}

abbrev meta : String → String → Time → Dict String → ObjectMeta
meta namespace name created annotations = record {
  name = name;
  namespace = namespace;
  uid = "u1";
  resource_version = "1";
  generation = 1;
  creation_timestamp = created;
  deletion_timestamp = none;
  labels = [];
  annotations = annotations;
  owner_references = [];
}

abbrev config_map : String → Time → String → ConfigMap
config_map name created urgency = record {
  meta = meta "acme" name created ((Key.priority, urgency) ∷ []);
  contents = (Key.cert_issuer_data, "yaml") ∷ [];
}

abbrev older : ConfigMap
older = config_map "older" (pos 1) "5"

abbrev newer : ConfigMap
newer = config_map "newer" (pos 2) "10"

less_both_iff_example : ((less older newer ≡ true) × (less newer older ≡ true)) ↔ (
    ((priority older <ℤ priority newer) × (pos 1 <ℤ pos 2))
    ⊎ ((priority newer <ℤ priority older) × (pos 2 <ℤ pos 1)))
less_both_iff_example = less_both_iff older newer

each_before_the_other : (less older newer ≡ true) × (less newer older ≡ true)
unfolding less priority atoi lookup
each_before_the_other = (refl, refl)

abbrev issuer : CertIssuer
issuer = record { secret_name = "account"; type = acme; acme_cert_issuer = none }

abbrev account : Secret
account = record { meta = meta "acme" "account" (pos 0) []; type = "Opaque"; contents = [] }

abbrev caches : IssuerCaches
caches = record {
  config_map = λ _ _. err not_found;
  labelled = λ namespace. if str_eq namespace "acme" then ok (newer ∷ []) else ok [];
  secret = λ namespace name. if str_eq namespace "acme" then ok account else err not_found;
  decode_issuer = λ _. some issuer;
  sort_slice = λ _ cms. cms;
}

found : issuer_for_object caches "acme" (meta "web" "shop" (pos 3) []) ≡ ok (issuer, account)
unfolding issuer_for_object issuer_config_maps lookup
found = refl

issuer_origin_example :
    (cm : ConfigMap) × IsCandidate caches "acme" (meta "web" "shop" (pos 3) []) cm
    × Gives caches "acme" (meta "web" "shop" (pos 3) []) cm issuer account
issuer_origin_example =
    issuer_origin caches "acme" (meta "web" "shop" (pos 3) []) issuer account (λ P before cms h. h)
      found
