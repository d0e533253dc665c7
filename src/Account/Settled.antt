-- ===== src/Account/Settled.antt =====
-- An issuer whose data was written needs nothing more.
use openshift_acme.Common.{
  String, ◌≡◌, ◌∙◌, refl, sym, ap, false, not, some, [], All, insert, lookup-insert, dict_eq,
  dict_eq-insert, is_empty, Bool-cases, inl, inr,
}
use openshift_acme.Errors.{Result, ok, err, ok-injective, require-ok, is_not_found}
use openshift_acme.Kube.{ConfigMap, Secret, Bytes}
use openshift_acme.Kube.Key
use openshift_acme.Effects.{
  Action, fail, pure, call, ◌>>=◌, ◌>>◌, get_registration, >>=-eq-ok, update_config_map, Only,
  Only-pure, Only-fail, Only-lift, Only-call, Only-bind, Only-if,
}
use openshift_acme.Reconcile.Acceptance.{only_rules}
use openshift_acme.Issuer.{CertIssuer, AcmeCertIssuer}
use openshift_acme.PrivateKey.{private_key_from_secret}
use openshift_acme.Account.{
  AccountWorld, Registration, with_secret_name, provision_account, with_account, refreshed,
  refresh_account, save_issuer, with_registration, is_same_hash, deep_equal, sync_account,
}
use openshift_acme.Account.Missing.{IsAccount, sync_account-with_account}

-- What the issuer's YAML and the ACME server are relied on for.
pub record IsSound (w : AccountWorld) : Type 0 where
  pub decodes :
      (i : CertIssuer) (text : String)
      → w.encode_issuer i ≡ some text
      → w.decode_issuer text ≡ some i
  pub has_uri :
      (k : Bytes) (url : String) (r : Registration)
      → w.get_registration k url ≡ ok r
      → is_empty r.uri ≡ false

-- The cache holds the ConfigMap.
abbrev pub recached : AccountWorld → ConfigMap → AccountWorld
recached w cm = record w { config_map_by_key = λ _. ok (some cm) }

abbrev pub Settles : AccountWorld → String → Action → Type 0
Settles w key (update_config_map cm) = sync_account (recached w cm) key ≡ ([], ok tt)
Settles w key _ = Unit

with_secret_name_twice :
    (cm : ConfigMap) (issuer : CertIssuer)
    → with_secret_name cm (with_secret_name cm issuer) ≡ with_secret_name cm issuer
unfolding with_secret_name
with_secret_name_twice cm issuer = elim (Bool-cases (is_empty issuer.secret_name)) [
  | inl empty ↦ rw empty (elim (Bool-cases (is_empty cm.meta.name)) [
    | inl blank ↦ rw blank refl
    | inr given ↦ rw given refl
  ])
  | inr given ↦ rw (given, given) refl
]

module _ (w : AccountWorld) (sound : IsSound w) (key : String) (cm : ConfigMap)
    (issuer : CertIssuer) (spec : AcmeCertIssuer) (a : IsAccount w key cm issuer spec) where
  named : CertIssuer
  named = with_secret_name cm issuer

  module _ (s : Secret) (kept : w.secret cm.meta.namespace named.secret_name ≡ ok s) (k : Bytes)
      (keyed : private_key_from_secret w.pem_decode w.parse_key s ≡ ok k) where
    -- The ConfigMap with the issuer's data written.
    written : String → ConfigMap
    written text = record cm { contents = insert Key.cert_issuer_data text cm.contents }

    written-IsAccount :
        (spec' : AcmeCertIssuer) (text : String)
        → w.encode_issuer (record named { acme_cert_issuer = some spec' }) ≡ some text
        → IsAccount
            (recached w (written text))
            key
            (written text)
            (record named { acme_cert_issuer = some spec' })
            spec'
    unfolding named written with_secret_name
    written-IsAccount spec' text e = record {
      parts = a.parts;
      splits = a.splits;
      found = refl;
      alive = a.alive;
      text = text;
      stored = lookup-insert Key.cert_issuer_data Key.cert_issuer_data text cm.contents;
      decoded = sound.decodes _ text e;
      is_acme = a.is_acme;
      specified = refl;
    }

    named_again :
        (spec' : AcmeCertIssuer) (text : String)
        → with_secret_name (written text) (record named { acme_cert_issuer = some spec' })
          ≡ record named { acme_cert_issuer = some spec' }
    unfolding named written with_secret_name
    named_again spec' text =
        ap (λ (i : CertIssuer). record i { acme_cert_issuer = some spec' })
          (with_secret_name_twice cm issuer)

    saved_again :
        (spec' : AcmeCertIssuer) (text : String)
        → w.encode_issuer (record named { acme_cert_issuer = some spec' }) ≡ some text
        → save_issuer
            (recached w (written text))
            (written text)
            (record named { acme_cert_issuer = some spec' })
          ≡ ([], ok tt)
    unfolding save_issuer written ◌>>=◌
    saved_again spec' text e =
        let same =
          (dict_eq-insert Key.cert_issuer_data text (written text).contents).1
            (lookup-insert Key.cert_issuer_data Key.cert_issuer_data text cm.contents) in
        rw (e, same) refl

    written_settles :
        (spec' : AcmeCertIssuer) (text : String)
        → w.encode_issuer (record named { acme_cert_issuer = some spec' }) ≡ some text
        → is_empty spec'.account.status.uri ≡ false
        → sync_account (recached w (written text)) key ≡ ([], ok tt)
    unfolding with_account refresh_account refreshed is_same_hash deep_equal ◌>>=◌ written named
    written_settles spec' text e uri =
        sync_account-with_account (recached w (written text)) key (written text) _ spec'
          (written-IsAccount spec' text e)
        ∙ rw (named_again spec' text) (rw (kept, keyed, uri) (saved_again spec' text e))

    save_issuer-Settles :
        (spec' : AcmeCertIssuer)
        → is_empty spec'.account.status.uri ≡ false
        → Only (Settles w key) (save_issuer w cm (record named { acme_cert_issuer = some spec' }))
    unfolding save_issuer written
    save_issuer-Settles spec' uri = Only-bind _ _ (Only-lift _) λ text e.
        let update = call (update_config_map (written text)) (w.update_config_map (written text)) in
        Only-if (dict_eq (written text).contents cm.contents) (pure tt) (update >> pure tt)
          (λ same. Only-pure tt)
          λ other.
            Only-bind update _ (Only-call _ _ (written_settles spec' text (require-ok _ _ _ e) uri))
              λ c done. Only-pure tt

    refreshed_has_uri :
        (spec' : AcmeCertIssuer)
        → (refreshed w spec k).1 ≡ ok spec'
        → is_empty spec'.account.status.uri ≡ false
    unfolding refreshed is_same_hash deep_equal with_registration
    refreshed_has_uri spec' h = elim (Bool-cases (is_empty spec.account.status.uri)) [
      | inl missing ↦
          let (r, replied, taken) =
            >>=-eq-ok (call get_registration (w.get_registration k spec.directory_url))
              (λ r. pure (with_registration w spec r)) (rw missing at h) in
          rw (sym (ok-injective taken)) (sound.has_uri k spec.directory_url r replied)
      | inr given ↦ rw (sym (ok-injective (rw given at h))) given
    ]

    refreshed-Settles : Only (Settles w key) (refreshed w spec k)
    unfolding refreshed is_same_hash deep_equal
    refreshed-Settles =
        let get = call get_registration (w.get_registration k spec.directory_url) in
        Only-if (is_empty spec.account.status.uri) (get >>= λ r. pure (with_registration w spec r))
          (pure spec) (λ missing. Only-bind get _ (Only-call _ _ tt) λ r replied. Only-pure _)
          (λ given. Only-pure spec)

    refresh_account-Settles : Only (Settles w key) (refresh_account w cm named spec s)
    unfolding refresh_account
    refresh_account-Settles = Only-bind _ _ (Only-lift _) λ k' e.
        let same : k' ≡ k = sym (ok-injective (sym keyed ∙ e)) in
        Only-bind (refreshed w spec k') _ (rw same refreshed-Settles)
          λ spec' r. save_issuer-Settles spec' (refreshed_has_uri spec' (rw same at r))

  keyed-Settles :
      (s : Secret) (r : Result Bytes)
      → w.secret cm.meta.namespace named.secret_name ≡ ok s
      → private_key_from_secret w.pem_decode w.parse_key s ≡ r
      → Only (Settles w key) (refresh_account w cm named spec s)
  unfolding refresh_account ◌>>=◌
  keyed-Settles s (ok k) kept keyed = refresh_account-Settles s kept k keyed
  keyed-Settles s (err e) kept broken = rw broken (Only-fail e)

  provision_account-Settles : Only (Settles w key) (provision_account w cm named spec)
  unfolding provision_account
  provision_account-Settles = search (only_rules, tt)

  with_account-Settles :
      (found : Result Secret)
      → w.secret cm.meta.namespace named.secret_name ≡ found
      → Only (Settles w key) (with_account w cm named spec found)
  unfolding with_account
  with_account-Settles (ok s) kept = keyed-Settles s _ kept refl
  with_account-Settles (err e) h =
      Only-if (not (is_not_found e)) (fail e) (provision_account w cm named spec >> fail e)
        (λ other. Only-fail e)
        (λ missing. Only-bind _ _ provision_account-Settles λ u done. Only-fail e)

  -- Where the codec of the issuers reads what it wrote, and each registration that the ACME server
  -- returns has a URL, every ConfigMap that a synchronization of an ACME issuer writes needs nothing
  -- more: once it is in the cache, the next synchronization succeeds without a call.
  pub sync_account-Settles : All (Settles w key) (sync_account w key).0
  unfolding named
  sync_account-Settles =
      rw (sync_account-with_account w key cm issuer spec a) (with_account-Settles _ refl).actions
