-- ===== src/Account.antt =====
-- pkg/controller/issuer/acme/acme.go: the account controller, which registers the ACME account of an
-- issuer and keeps its data in the ConfigMap of the issuer.
pub mod Events
pub mod Missing
pub mod Settled
use openshift_acme.Common.{
  String, Bool, true, false, not, ◌&&◌, Option, none, some, List, [], ◌∷◌, if◌then◌else◌, is_empty,
  lookup, insert, dict_eq, pos, codes,
}
use openshift_acme.Errors.{
  Result, ok, err, require, is_not_found, missing_issuer_data, invalid_issuer_data,
  missing_acme_issuer, nil_account,
}
use openshift_acme.Kube.{ConfigMap, Secret, ObjectMeta, Bytes}
use openshift_acme.Kube.Key
use openshift_acme.Effects.{
  Eff, pure, fail, lift, call, act, ◌>>=◌, ◌>>◌, create_secret, event, register_account,
  get_registration, update_config_map,
}
use openshift_acme.Issuer.{
  CertIssuer, CertIssuerType, acme, unsupported, AcmeCertIssuer, AcmeAccount, AcmeAccountStatus,
}
use openshift_acme.Token.{bytes_eq}
use openshift_acme.PrivateKey.{private_key_from_secret}
use openshift_acme.Reconcile.Sync.{is_deleted}

-- `acme.Account`
pub record Registration : Type 0 where
  pub uri : String
  pub contact : List String
  pub orders_url : String
  pub status : String

-- The caches, the API server, the ACME server, the codecs and the keys. The ACME client takes the
-- account key and the URL of the directory. `sum512` is the SHA-512 sum of the text of `fmt.Sprint`
-- of the contacts, `sprint_array` is `fmt.Sprint` of an array of bytes.
pub record AccountWorld : Type 0 where
  pub split_key : String → Result (String × String)
  pub config_map_by_key : String → Result (Option ConfigMap)
  pub labelled : String → Result (List ConfigMap)
  pub secret : String → String → Result Secret
  pub decode_issuer : String → Option CertIssuer
  pub encode_issuer : CertIssuer → Option String
  pub generate_key : Result Bytes
  pub marshal_key : Bytes → Bytes
  pub pem_encode : String → Bytes → String
  pub pem_decode : String → Option Bytes
  pub parse_key : Bytes → Option Bytes
  pub register : Bytes → String → List String → Result Registration
  pub get_registration : Bytes → String → Result Registration
  pub create_secret : String → Secret → Result Secret
  pub update_config_map : ConfigMap → Result ConfigMap
  pub sum512 : List String → Bytes
  pub sprint_array : Bytes → String

-- The values that `reflect.DeepEqual` is given: it is false for values of two types.
pub data Reflected : Type 0 where
  array : Bytes → Reflected
  slice : Bytes → Reflected

unfoldable pub deep_equal : Reflected → Reflected → Bool
deep_equal (array xs) (array ys) = bytes_eq xs ys
deep_equal (array xs) (slice ys) = false
deep_equal (slice xs) (array ys) = false
deep_equal (slice xs) (slice ys) = bytes_eq xs ys

-- An issuer without a secret's name uses its own.
unfoldable pub with_secret_name : ConfigMap → CertIssuer → CertIssuer
with_secret_name cm issuer = record issuer {
  secret_name = if is_empty issuer.secret_name then cm.meta.name else issuer.secret_name;
}

module _ (w : AccountWorld) where
  -- `hashAccount`, which returns an array.
  unfoldable pub hash_account : AcmeAccount → Bytes
  hash_account account = w.sum512 account.contacts

  unfoldable pub is_same_hash : AcmeAccount → Bool
  unfolding deep_equal hash_account
  is_same_hash account =
      deep_equal (array (hash_account account)) (slice (codes account.status.hash))

  unfoldable pub account_secret : String → Bytes → Secret
  account_secret name key = record {
    meta = record {
      name = name;
      namespace = "";
      uid = "";
      resource_version = "";
      generation = 0;
      creation_timestamp = pos 0;
      deletion_timestamp = none;
      labels = [];
      annotations = [];
      owner_references = [];
    };
    type = "Opaque";
    contents = ("tls.key", w.pem_encode "RSA PRIVATE KEY" (w.marshal_key key)) ∷ [];
  }

  -- A new account, whose key is kept in a new secret.
  unfoldable pub provision_account : ConfigMap → CertIssuer → AcmeCertIssuer → Eff (Unit {0})
  provision_account cm issuer spec = do
    key ← lift w.generate_key
    account ←
        call (register_account spec.account.contacts)
          (w.register key spec.directory_url spec.account.contacts)
    let secret = account_secret issuer.secret_name key
    created ← call (create_secret secret) (w.create_secret cm.meta.namespace secret)
    act (event "AcmeAccountProvisioned")

  -- The account's data of the issuer, from a registration.
  unfoldable pub with_registration : AcmeCertIssuer → Registration → AcmeCertIssuer
  with_registration spec r = record spec {
    account = record {
      contacts = r.contact;
      status = record {
        hash = w.sprint_array (hash_account (record spec.account { contacts = r.contact }));
        uri = r.uri;
        account_status = r.status;
        orders_url = r.orders_url;
      };
    };
  }

  -- The branch of an update would use an account that is nil.
  unfoldable pub refreshed : AcmeCertIssuer → Bytes → Eff AcmeCertIssuer
  unfolding is_same_hash deep_equal
  refreshed spec key =
      if is_same_hash spec.account
      then fail nil_account
      else if is_empty spec.account.status.uri
      then (do
        r ← call get_registration (w.get_registration key spec.directory_url)
        pure (with_registration spec r))
      else pure spec

  unfoldable pub save_issuer : ConfigMap → CertIssuer → Eff (Unit {0})
  save_issuer cm issuer = do
    text ← lift (require (w.encode_issuer issuer) invalid_issuer_data)
    let updated = record cm { contents = insert Key.cert_issuer_data text cm.contents }
    if dict_eq updated.contents cm.contents
        then pure tt
        else do call (update_config_map updated) (w.update_config_map updated); pure tt

  unfoldable pub refresh_account : ConfigMap → CertIssuer → AcmeCertIssuer → Secret → Eff (Unit {0})
  refresh_account cm issuer spec secret = do
    key ← lift (private_key_from_secret w.pem_decode w.parse_key secret)
    spec' ← refreshed spec key
    save_issuer cm (record issuer { acme_cert_issuer = some spec' })

  -- After a registration the error of the missing secret is returned: the errors of the registration
  -- are those of another variable of the same name.
  unfoldable pub with_account :
      ConfigMap → CertIssuer → AcmeCertIssuer → Result Secret → Eff (Unit {0})
  with_account cm issuer spec (ok secret) = refresh_account cm issuer spec secret
  with_account cm issuer spec (err e) =
      if not (is_not_found e) then fail e else do provision_account cm issuer spec; fail e

  unfoldable pub sync_acme : ConfigMap → CertIssuer → Eff (Unit {0})
  sync_acme cm issuer = do
    spec ← lift (require issuer.acme_cert_issuer missing_acme_issuer)
    let named = with_secret_name cm issuer
    with_account cm named spec (w.secret cm.meta.namespace named.secret_name)

  unfoldable pub sync_issuer : CertIssuerType → ConfigMap → CertIssuer → Eff (Unit {0})
  sync_issuer acme cm issuer = sync_acme cm issuer
  sync_issuer (unsupported t) cm issuer = pure tt

  unfoldable pub sync_config_map : ConfigMap → Eff (Unit {0})
  sync_config_map cm = if is_deleted cm.meta.deletion_timestamp then pure tt else do
    text ← lift (require (lookup Key.cert_issuer_data cm.contents) missing_issuer_data)
    issuer ← lift (require (w.decode_issuer text) invalid_issuer_data)
    sync_issuer issuer.type cm issuer

  unfoldable pub account_found : Option ConfigMap → Eff (Unit {0})
  account_found none = pure tt
  account_found (some cm) = sync_config_map cm

  -- `sync`
  unfoldable pub sync_account : String → Eff (Unit {0})
  unfolding account_found
  sync_account key = do
    parts ← lift (w.split_key key)
    found ← lift (w.config_map_by_key key)
    account_found found
