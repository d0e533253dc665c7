-- ===== src/Account/Missing.antt =====
-- An issuer whose secret is missing gets a new account.
use openshift_acme.Common.{String, ◌≡◌, ◌≢◌, ◌∙◌, refl, some, none, [], ◌∷◌, lookup}
use openshift_acme.Errors.{ok, err, not_found, is_not_found}
use openshift_acme.Kube.{ConfigMap, Secret, Bytes}
use openshift_acme.Kube.Key
use openshift_acme.Effects.{fail, ◌>>=◌, create_secret, event, register_account, >>=-eq-ok}
use openshift_acme.Issuer.{CertIssuer, acme, AcmeCertIssuer}
use openshift_acme.Reconcile.Sync.{is_deleted}
use openshift_acme.Account.{
  AccountWorld, Registration, with_secret_name, account_secret, provision_account, with_account,
  sync_acme, sync_issuer, sync_config_map, account_found, sync_account,
}

-- The cached ConfigMap with the key is not being deleted, and is the issuer of an ACME account.
pub record IsAccount (w : AccountWorld) (key : String) (cm : ConfigMap) (issuer : CertIssuer)
    (spec : AcmeCertIssuer) : Type 0 where
  pub parts : String × String
  pub splits : w.split_key key ≡ ok parts
  pub found : w.config_map_by_key key ≡ ok (some cm)
  pub alive : cm.meta.deletion_timestamp ≡ none
  pub text : String
  pub stored : lookup Key.cert_issuer_data cm.contents ≡ some text
  pub decoded : w.decode_issuer text ≡ some issuer
  pub is_acme : issuer.type ≡ acme
  pub specified : issuer.acme_cert_issuer ≡ some spec

module _ (w : AccountWorld) (key : String) (cm : ConfigMap) (issuer : CertIssuer)
    (spec : AcmeCertIssuer) (a : IsAccount w key cm issuer spec) where
  pub sync_account-with_account :
      sync_account w key
      ≡ with_account w cm
          (with_secret_name cm issuer)
          spec
          (w.secret cm.meta.namespace (with_secret_name cm issuer).secret_name)
  unfolding sync_account account_found sync_config_map sync_issuer sync_acme is_deleted ◌>>=◌
  sync_account-with_account =
      rw (a.splits, a.found, a.alive, a.stored, a.decoded, a.is_acme, a.specified) refl

  -- Where the secret of the account is missing, a synchronization never succeeds, whatever the servers
  -- reply.
  pub missing_secret_fails :
      (u : Unit {0})
      → w.secret cm.meta.namespace (with_secret_name cm issuer).secret_name ≡ err not_found
      → (sync_account w key).1 ≢ ok u
  unfolding with_account is_not_found
  missing_secret_fails u missing h =
      let named = with_secret_name cm issuer in
      let (_, _, failed) =
        >>=-eq-ok (provision_account w cm named spec) (λ _. fail not_found)
          (rw (sync_account-with_account, missing) at h) in
      cc

  -- Where the secret of the account is missing, and all calls succeed, an account is registered with the
  -- contacts of the issuer, its key is stored in a new secret, and then the synchronization fails with
  -- the error that the secret is missing.
  pub registered_account_lem :
      (k : Bytes) (r : Registration) (s : Secret)
      → w.secret cm.meta.namespace (with_secret_name cm issuer).secret_name ≡ err not_found
      → w.generate_key ≡ ok k
      → w.register k spec.directory_url spec.account.contacts ≡ ok r
      → w.create_secret cm.meta.namespace
          (account_secret w (with_secret_name cm issuer).secret_name k)
        ≡ ok s
      → sync_account w key ≡ (
        register_account spec.account.contacts
            ∷ create_secret (account_secret w (with_secret_name cm issuer).secret_name k)
            ∷ event "AcmeAccountProvisioned"
            ∷ [],
        err not_found,
      )
  unfolding with_account provision_account is_not_found account_secret ◌>>=◌
  registered_account_lem k r s missing generated registered created =
      sync_account-with_account ∙ rw (missing, generated, registered, created) refl
