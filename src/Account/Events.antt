-- ===== src/Account/Events.antt =====
-- Account: the event handlers of the account controller, and the keys that they add to its queue.
pub mod Users
use openshift_acme.Common.{
  String, Bool, true, false, not, ◌&&◌, Option, none, some, List, [], ◌∷◌, ◌++◌, if◌then◌else◌,
  str_eq, Dict, lookup,
}
use openshift_acme.Errors.{Result, ok, err}
use openshift_acme.Kube.{ConfigMap, Secret, ObjectMeta}
use openshift_acme.Kube.Key
use openshift_acme.Issuer.{CertIssuer, CertIssuerType, acme, unsupported}
use openshift_acme.Handlers.{Deleted, object, tombstone, other_object}
use openshift_acme.Account.{AccountWorld}

unfoldable pub is_value : Option String → String → Bool
is_value none value = false
is_value (some other) value = str_eq other value

-- `api.AccountLabelSet` selects the labels.
unfoldable pub has_account_labels : Dict String → Bool
has_account_labels labels =
    is_value (lookup "managed-by" labels) "openshift-acme"
    && is_value (lookup "type" labels) "CertIssuer"

unfoldable pub key_or_none : Result String → List String
key_or_none (ok key) = key ∷ []
key_or_none (err e) = []

module _ (w : AccountWorld) (key_func : ObjectMeta → Result String) where
  unfoldable pub enqueue_account : ConfigMap → List String
  enqueue_account cm = key_or_none (key_func cm.meta)

  unfoldable pub enqueue_labelled : ConfigMap → List String
  enqueue_labelled cm = if not (has_account_labels cm.meta.labels) then [] else enqueue_account cm

  unfoldable pub add_config_map : ConfigMap → List String
  add_config_map cm = enqueue_labelled cm

  unfoldable pub update_config_map : ConfigMap → ConfigMap → List String
  update_config_map old cur = enqueue_labelled cur

  unfoldable pub delete_config_map : Deleted ConfigMap → List String
  delete_config_map (object cm) = enqueue_labelled cm
  delete_config_map (tombstone cm) = enqueue_labelled cm
  delete_config_map other_object = []

  module _ (secret : Secret) where
    unfoldable pub enqueue_user : CertIssuerType → CertIssuer → ConfigMap → List String
    enqueue_user acme issuer cm =
        if str_eq issuer.secret_name secret.meta.name then enqueue_account cm else []
    enqueue_user (unsupported t) issuer cm = []

    unfoldable pub enqueue_decoded : Option CertIssuer → ConfigMap → List String
    unfolding enqueue_user
    enqueue_decoded none cm = []
    enqueue_decoded (some issuer) cm = enqueue_user issuer.type issuer cm

    unfoldable pub enqueue_stored : Option String → ConfigMap → List String
    unfolding enqueue_decoded
    enqueue_stored none cm = []
    enqueue_stored (some text) cm = enqueue_decoded (w.decode_issuer text) cm

    unfoldable pub enqueue_users : List ConfigMap → List String
    unfolding enqueue_stored
    enqueue_users [] = []
    enqueue_users (cm ∷ cms) =
        enqueue_stored (lookup Key.cert_issuer_data cm.contents) cm ++ enqueue_users cms

    unfoldable pub enqueue_listed : Result (List ConfigMap) → List String
    unfolding enqueue_users
    enqueue_listed (err e) = []
    enqueue_listed (ok cms) = enqueue_users cms

  unfoldable pub delete_secret : Deleted Secret → List String
  unfolding enqueue_listed
  delete_secret (object s) = enqueue_listed s (w.labelled s.meta.namespace)
  delete_secret (tombstone s) = enqueue_listed s (w.labelled s.meta.namespace)
  delete_secret other_object = []
