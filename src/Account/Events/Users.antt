-- ===== src/Account/Events/Users.antt =====
-- Account.Events: the issuers whose keys the deletion of a secret adds.
use openshift_acme.Common.{
  String, ◌≡◌, ◌↔◌, inl, inr, refl, Option, none, some, List, [], ◌∷◌, Any, Any-append, Bool-cases,
  eq_iff, eq_refl, lookup, str_eq,
}
use openshift_acme.Errors.{Result, ok, err}
use openshift_acme.Kube.{ConfigMap, Secret, ObjectMeta}
use openshift_acme.Kube.Key
use openshift_acme.Issuer.{CertIssuer, CertIssuerType, acme, unsupported}
use openshift_acme.Handlers.{object}
use openshift_acme.Account.{AccountWorld}
use openshift_acme.Account.Events.{
  key_or_none, enqueue_account, enqueue_user, enqueue_decoded, enqueue_stored, enqueue_users,
  enqueue_listed, delete_secret,
}

module _ (w : AccountWorld) (key_func : ObjectMeta → Result String) (secret : Secret)
    (key : String) where
  -- The ConfigMap with the key holds an ACME issuer that names the secret.
  pub record IsUser (cm : ConfigMap) : Type 0 where
    pub text : String
    pub stored : lookup Key.cert_issuer_data cm.contents ≡ some text
    pub issuer : CertIssuer
    pub decoded : w.decode_issuer text ≡ some issuer
    pub is_acme : issuer.type ≡ acme
    pub names : issuer.secret_name ≡ secret.meta.name
    pub keyed : key_func cm.meta ≡ ok key

  abbrev Queues : List String → Type 0
  Queues keys = Any (λ k. k ≡ key) keys

  queued-keyed : (r : Result String) → Queues (key_or_none r) → r ≡ ok key
  unfolding key_or_none
  queued-keyed (ok k) (inl e) = rw e refl
  queued-keyed (ok k) (inr absurd) = elim absurd [ ]
  queued-keyed (err e) absurd = elim absurd [ ]

  user :
      (text : String) (issuer : CertIssuer) (cm : ConfigMap) (t : CertIssuerType)
      → lookup Key.cert_issuer_data cm.contents ≡ some text
      → w.decode_issuer text ≡ some issuer
      → issuer.type ≡ t
      → Queues (enqueue_user w key_func secret t issuer cm)
      → IsUser cm
  unfolding enqueue_user enqueue_account
  user text issuer cm (unsupported t) stored decoded is_other h = elim h [ ]
  user text issuer cm acme stored decoded is_acme h =
      elim (Bool-cases (str_eq issuer.secret_name secret.meta.name)) [
        | inl same ↦ record {
          text = text;
          stored = stored;
          issuer = issuer;
          decoded = decoded;
          is_acme = is_acme;
          names = (eq_iff _ _).0 same;
          keyed = queued-keyed _ (rw same at h);
        }
        | inr other ↦ elim (rw other at h) [ ]
      ]

  decoded-IsUser :
      (text : String) (cm : ConfigMap) (found : Option CertIssuer)
      → lookup Key.cert_issuer_data cm.contents ≡ some text
      → w.decode_issuer text ≡ found
      → Queues (enqueue_decoded w key_func secret found cm)
      → IsUser cm
  unfolding enqueue_decoded
  decoded-IsUser text cm none stored decoded h = elim h [ ]
  decoded-IsUser text cm (some issuer) stored decoded h =
      user text issuer cm _ stored decoded refl h

  stored-IsUser :
      (cm : ConfigMap) (found : Option String)
      → lookup Key.cert_issuer_data cm.contents ≡ found
      → Queues (enqueue_stored w key_func secret found cm)
      → IsUser cm
  unfolding enqueue_stored
  stored-IsUser cm none stored h = elim h [ ]
  stored-IsUser cm (some text) stored h = decoded-IsUser text cm _ stored refl h

  user_queued :
      (cm : ConfigMap)
      → IsUser cm
      → Queues (enqueue_stored w key_func secret (lookup Key.cert_issuer_data cm.contents) cm)
  unfolding enqueue_stored enqueue_decoded enqueue_user enqueue_account key_or_none
  user_queued cm u =
      rw (u.stored, u.decoded, u.is_acme, u.names, eq_refl secret.meta.name, u.keyed) (inl refl)

  users_lem : (cms : List ConfigMap) → Queues (enqueue_users w key_func secret cms) ↔ Any IsUser cms
  unfolding enqueue_users
  users_lem [] = (λ h. h, λ h. h)
  users_lem (cm ∷ cms) =
      let split =
        Any-append (λ k. k ≡ key)
          (enqueue_stored w key_func secret (lookup Key.cert_issuer_data cm.contents) cm)
          (enqueue_users w key_func secret cms) in
      (
        λ h. elim (split.0 h) [
          | inl here ↦ inl (stored-IsUser cm _ refl here)
          | inr there ↦ inr ((users_lem cms).0 there)
        ],
        λ h. split.1 (elim h [
          | inl here ↦ inl (user_queued cm here)
          | inr there ↦ inr ((users_lem cms).1 there)
        ]),
      )

  -- Where the ConfigMaps with the labels of an issuer can be listed, the deletion of a secret adds
  -- exactly the keys of those that hold an ACME issuer that names the secret.
  pub delete_secret_lem :
      (cms : List ConfigMap)
      → w.labelled secret.meta.namespace ≡ ok cms
      → Any (λ k. k ≡ key) (delete_secret w key_func (object secret)) ↔ Any IsUser cms
  unfolding delete_secret enqueue_listed
  delete_secret_lem cms listed = rw listed (users_lem cms)
