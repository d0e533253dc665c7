-- ===== src/Issuer.antt =====
-- pkg/controllerutils/controllerutils.go: the issuer that an object is served by. The caches, the
-- YAML decoder and `sort.Slice` are parameters.
pub mod Preference
pub mod Candidates
use openshift_acme.Common.{
  ℕ, ◌+◌, ◌-◌, ◌*◌, ◌^◌, String, Bool, true, false, ◌&&◌, Option, none, some, List, [], ◌∷◌, ◌++◌,
  if◌then◌else◌, ltb, leb, ◌==◌, ℤ, pos, neg, ltb_ℤ, lookup, is_empty, codes,
}
use openshift_acme.Errors.{
  Result, ok, err, require, ◌>>=◌, no_issuer, missing_issuer_data, invalid_issuer_data,
  missing_secret_name,
}
use openshift_acme.Kube.{ConfigMap, Secret, ObjectMeta}
use openshift_acme.Kube.Key

pub record AcmeAccountStatus : Type 0 where
  pub hash : String
  pub uri : String
  pub account_status : String
  pub orders_url : String

pub record AcmeAccount : Type 0 where
  pub contacts : List String
  pub status : AcmeAccountStatus

pub record AcmeCertIssuer : Type 0 where
  pub directory_url : String
  pub account : AcmeAccount

pub data CertIssuerType : Type 0 where
  acme : CertIssuerType
  unsupported : String → CertIssuerType

pub record CertIssuer : Type 0 where
  pub secret_name : String
  pub type : CertIssuerType
  pub acme_cert_issuer : Option AcmeCertIssuer

-- The informer caches of a namespace: `labelled` lists the ConfigMaps with the labels of an issuer.
pub record IssuerCaches : Type 0 where
  pub config_map : String → String → Result ConfigMap
  pub labelled : String → Result (List ConfigMap)
  pub secret : String → String → Result Secret
  pub decode_issuer : String → Option CertIssuer
  pub sort_slice : (ConfigMap → ConfigMap → Bool) → List ConfigMap → List ConfigMap

-- `strconv.Atoi`: an optional sign and decimal digits, in the range of int64.
digits_from : ℕ → List ℕ → Option ℕ
digits_from n [] = some n
digits_from n (c ∷ cs) =
    let rest = digits_from (n * 10 + (c - b'0')) cs in
    if leb b'0' c && leb c b'9' then rest else none

number : List ℕ → Option ℕ
unfolding digits_from
number [] = none
number (c ∷ cs) = digits_from 0 (c ∷ cs)

in_range : Bool → Option ℕ → Option ℤ
in_range negative none = none
in_range true (some n) = if leb n (2 ^ 63) then some (neg n) else none
in_range false (some n) = if ltb n (2 ^ 63) then some (pos n) else none

unfoldable pub atoi : List ℕ → Option ℤ
unfolding number in_range
atoi [] = none
atoi (c ∷ cs) =
    if c == b'-'
    then in_range true (number cs)
    else if c == b'+'
    then in_range false (number cs)
    else in_range false (number (c ∷ cs))

or_zero : Option ℤ → ℤ
or_zero none = pos 0
or_zero (some v) = v

priority_text : Option String → ℤ
unfolding atoi or_zero
priority_text none = pos 0
priority_text (some s) = if is_empty s then pos 0 else or_zero (atoi (codes s))

unfoldable pub priority : ConfigMap → ℤ
unfolding priority_text
priority cm = priority_text (lookup Key.priority cm.meta.annotations)

-- The order that is handed to `sort.Slice`.
unfoldable pub less : ConfigMap → ConfigMap → Bool
less lhs rhs =
    if ltb_ℤ (priority lhs) (priority rhs)
    then true
    else if ltb_ℤ rhs.meta.creation_timestamp lhs.meta.creation_timestamp
    then true
    else false

module _ (caches : IssuerCaches) (global : String) where
  open caches use {config_map, labelled, secret, decode_issuer, sort_slice}

  sorted_issuers : List ConfigMap → Result (List ConfigMap)
  sorted_issuers [] = err no_issuer
  sorted_issuers (cm ∷ cms) = ok (sort_slice less (cm ∷ cms))

  any_issuers : ObjectMeta → Result (List ConfigMap)
  unfolding sorted_issuers
  any_issuers obj = do
    local ← labelled obj.namespace
    everywhere ← labelled global
    sorted_issuers (local ++ everywhere)

  named_issuers : ObjectMeta → Option String → Result (List ConfigMap)
  unfolding any_issuers
  named_issuers obj none = any_issuers obj
  named_issuers obj (some name) =
      if is_empty name then any_issuers obj else do cm ← config_map obj.namespace name; ok (cm ∷ [])

  unfoldable pub issuer_config_maps : ObjectMeta → Result (List ConfigMap)
  unfolding named_issuers
  issuer_config_maps obj = named_issuers obj (lookup Key.cert_issuer_name obj.annotations)

  issuer_of : List ConfigMap → Result (CertIssuer × Secret)
  issuer_of [] = err no_issuer
  issuer_of (cm ∷ cms) = do
    text ← require (lookup Key.cert_issuer_data cm.contents) missing_issuer_data
    issuer ← require (decode_issuer text) invalid_issuer_data
    if is_empty issuer.secret_name
        then err missing_secret_name
        else do s ← secret cm.meta.namespace issuer.secret_name; ok (issuer, s)

  -- `issuerConfigMaps[0]` of an empty list, which only a `sort_slice` that drops items would give,
  -- is a panic in the source.
  unfoldable pub issuer_for_object : ObjectMeta → Result (CertIssuer × Secret)
  unfolding issuer_of
  issuer_for_object obj = do cms ← issuer_config_maps obj; issuer_of cms
