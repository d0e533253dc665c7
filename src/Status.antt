-- ===== src/Status.antt =====
-- pkg/api/types.go: the provisioning status that the controller keeps in an annotation of the route,
-- and its reading and writing (`getStatus`, `setStatus` and `updateStatus` of
-- pkg/controller/route/route.go).
pub mod Patch
pub mod Stored
use openshift_acme.Common.{
  ℕ, String, Bool, true, false, Option, none, some, List, [], ℤ, pos, if◌then◌else◌, lookup, insert,
  dict_eq,
}
use openshift_acme.Errors.{Result, ok, err, require, cannot_decode_status, cannot_encode_status}
use openshift_acme.Kube.{Time, Route, ObjectMeta}
use openshift_acme.Kube.Key
use openshift_acme.Acme.{AcmeStatus, none_yet}
use openshift_acme.Effects.{Eff, pure, lift, call, patch_status, ◌>>=◌, ◌>>◌}

pub record OrderError : Type 0 where
  pub status_code : ℤ
  pub problem_type : String
  pub detail : String

pub record CertificateMeta : Type 0 where
  pub not_before : Time
  pub not_after : Time
  pub domains : List String

pub record CertProvisioningStatus : Type 0 where
  pub started_at : Time
  pub earliest_attempt_at : Time
  pub failures : ℤ
  pub order_uri : String
  pub order_status : AcmeStatus
  pub order_error : Option OrderError
  pub account_hash : String

pub record Status : Type 0 where
  pub observed_generation : ℕ
  pub certificate_meta : Option CertificateMeta
  pub provisioning : CertProvisioningStatus
  pub signature : String

-- The zero value; the time stands for the zero time.
abbrev pub zero_status : Status
zero_status = record {
  observed_generation = 0;
  certificate_meta = none;
  provisioning = record {
    started_at = pos 0;
    earliest_attempt_at = pos 0;
    failures = pos 0;
    order_uri = "";
    order_status = none_yet;
    order_error = none;
    account_hash = "";
  };
  signature = "";
}

-- sigs.k8s.io/yaml and encoding/json on a status. `decode` unmarshals into the zero value.
pub record StatusCodec : Type 0 where
  pub decode : String → Option Status
  pub encode_yaml : Status → Option String
  pub encode_json : Status → Option String

-- A missing annotation reads as the empty text.
text_of : Option String → String
text_of none = ""
text_of (some s) = s

unfoldable pub encoded_meta : Option String → ObjectMeta → Status → Result (ObjectMeta × Status)
encoded_meta none obj status = err cannot_encode_status
encoded_meta (some text) obj status =
    ok (record obj { annotations = insert Key.status text obj.annotations }, status)

module _ (codec : StatusCodec) where
  open codec use {decode, encode_yaml, encode_json}

  unfoldable pub get_status : Route → Result Status
  unfolding text_of
  get_status route =
      require (decode (text_of (lookup Key.status route.meta.annotations))) cannot_decode_status

  -- The metadata with the annotation, and the status, whose observed generation is set too.
  unfoldable pub set_status : ObjectMeta → Status → Result (ObjectMeta × Status)
  unfolding encoded_meta
  set_status obj status =
      let seen = record status { observed_generation = obj.generation } in
      encoded_meta (encode_yaml seen) obj seen

  -- `reply` is that of the API server to the patch.
  unfoldable pub update_status : (String → Result (Unit {0})) → Route → Status → Eff (Unit {0})
  update_status reply route status = do
    (obj, seen) ← lift (set_status route.meta status)
    if dict_eq obj.annotations route.meta.annotations then pure tt else do
      text ← lift (require (encode_json seen) cannot_encode_status)
      call (patch_status obj.namespace obj.name text) (reply text)
