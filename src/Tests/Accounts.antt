-- ===== src/Tests/Accounts.antt =====
-- An ACME account, registered and refreshed.
use openshift_acme.Common.{
  String, length, not, ◌&&◌, ◌≡◌, ◌≢◌, ◌↔◌, refl, sym, Option, none, some, List, [], ◌∷◌, All, Any,
  pos, str_eq, if◌then◌else◌, eq_iff, arith, lookup, insert, dict_eq,
}
use openshift_acme.Errors.{Result, ok, err, not_found, ok-injective}
use openshift_acme.Kube.{ConfigMap, Secret, ObjectMeta}
use openshift_acme.Kube.Key
use openshift_acme.Effects.{◌>>=◌}
use openshift_acme.Issuer.{
  CertIssuer, CertIssuerType, acme, unsupported, AcmeCertIssuer, AcmeAccountStatus,
}
use openshift_acme.Handlers.{object}
use openshift_acme.PrivateKey.{private_key_from_secret}
use openshift_acme.Reconcile.Sync.{is_deleted}
use openshift_acme.Account.{
  AccountWorld, Registration, sync_account, with_secret_name, account_found, sync_config_map,
  sync_issuer, sync_acme, with_account, refresh_account, refreshed, save_issuer, is_same_hash,
  deep_equal, with_registration,
}
use openshift_acme.Account.Missing.{IsAccount, missing_secret_fails}
use openshift_acme.Account.Settled.{IsSound, Settles, sync_account-Settles}
use openshift_acme.Account.Events.{
  delete_secret, enqueue_listed, enqueue_users, enqueue_stored, enqueue_decoded, enqueue_user,
  enqueue_account, key_or_none,
}
use openshift_acme.Account.Events.Users.{IsUser, delete_secret_lem}

abbrev spec : String → AcmeCertIssuer
spec uri = record {
  directory_url = "directory";
  account = record {
    contacts = [];
    status = record { hash = "hash"; uri = uri; account_status = "valid"; orders_url = "orders" };
  };
}

abbrev issuer : String → String → CertIssuer
issuer name uri = record { secret_name = name; type = acme; acme_cert_issuer = some (spec uri) }

-- A codec for the issuers of that form whose URL is known, which writes the name of the secret.
abbrev encode_status : String → String → AcmeAccountStatus → Option String
encode_status name url status =
    if str_eq url "directory"
      && (str_eq status.hash "hash"
          && (str_eq status.uri "account"
              && (str_eq status.account_status "valid"
                  && (str_eq status.orders_url "orders" && not (str_eq name "new")))))
    then some name
    else none

abbrev encode_contacts : String → String → List String → AcmeAccountStatus → Option String
encode_contacts name url [] status = encode_status name url status
encode_contacts name url (c ∷ cs) status = none

abbrev encode_type : CertIssuerType → Option AcmeCertIssuer → String → Option String
encode_type (unsupported t) spec name = none
encode_type acme none name = none
encode_type acme (some spec) name =
    encode_contacts name spec.directory_url spec.account.contacts spec.account.status

abbrev encode : CertIssuer → Option String
encode i = encode_type i.type i.acme_cert_issuer i.secret_name

abbrev decode : String → Option CertIssuer
decode text = if str_eq text "new" then some (issuer "" "") else some (issuer text "account")

decodes_status :
    (name url : String) (status : AcmeAccountStatus) (text : String)
    → encode_status name url status ≡ some text
    → decode text
      ≡ some (record {
        secret_name = name;
        type = acme;
        acme_cert_issuer =
            some
              (record { directory_url = url; account = record { contacts = []; status = status } });
      })
decodes_status name url status text h = ground (
  arith,
  h,
  eq_iff url "directory",
  eq_iff status.hash "hash",
  eq_iff status.uri "account",
  eq_iff status.account_status "valid",
  eq_iff status.orders_url "orders",
)

abbrev register : String → Result Registration
register url =
    ok (record { uri = "account"; contact = []; orders_url = "orders"; status = "valid" })

abbrev meta : String → ObjectMeta
meta name = record {
  name = name;
  namespace = "acme";
  uid = "";
  resource_version = "";
  generation = 0;
  creation_timestamp = pos 0;
  deletion_timestamp = none;
  labels = [];
  annotations = [];
  owner_references = [];
}

abbrev config_map : ConfigMap
config_map = record { meta = meta "issuer"; contents = (Key.cert_issuer_data, "new") ∷ [] }

abbrev key_secret : Secret
key_secret = record { meta = meta "issuer"; type = "Opaque"; contents = ("tls.key", "pem") ∷ [] }

abbrev world : Result Secret → AccountWorld
world secret = record {
  split_key = λ key. ok ("acme", "issuer");
  config_map_by_key = λ key. ok (some config_map);
  labelled = λ namespace. ok (config_map ∷ []);
  secret = λ namespace name. secret;
  decode_issuer = decode;
  encode_issuer = encode;
  generate_key = ok (1 ∷ []);
  marshal_key = λ key. key;
  pem_encode = λ type bytes. "pem";
  pem_decode = λ text. some (1 ∷ []);
  parse_key = λ bytes. some bytes;
  register = λ key url contacts. register url;
  get_registration = λ key url. register url;
  create_secret = λ namespace s. ok s;
  update_config_map = λ cm. ok cm;
  sum512 = λ contacts. [];
  sprint_array = λ bytes. "hash";
}

world-IsAccount :
    (secret : Result Secret)
    → IsAccount (world secret) "acme/issuer" config_map (issuer "" "") (spec "")
unfolding lookup
world-IsAccount secret = record {
  parts = ("acme", "issuer");
  splits = refl;
  found = refl;
  alive = refl;
  text = "new";
  stored = refl;
  decoded = refl;
  is_acme = refl;
  specified = refl;
}

decodes : (i : CertIssuer) (text : String) → encode i ≡ some text → decode text ≡ some i
decodes i text h = go i.type i.acme_cert_issuer h
  where
    go :
        (t : CertIssuerType) (s : Option AcmeCertIssuer)
        → encode_type t s i.secret_name ≡ some text
        → decode text
          ≡ some (record { secret_name = i.secret_name; type = t; acme_cert_issuer = s })
    go (unsupported t) s e = cc
    go acme none e = cc
    go acme (some s) e = go_contacts s.account.contacts e
      where
        go_contacts :
            (cs : List String)
            → encode_contacts i.secret_name s.directory_url cs s.account.status ≡ some text
            → decode text
              ≡ some (record {
                secret_name = i.secret_name;
                type = acme;
                acme_cert_issuer = some (record {
                  directory_url = s.directory_url;
                  account = record { contacts = cs; status = s.account.status };
                });
              })
        go_contacts [] f = decodes_status i.secret_name s.directory_url s.account.status text f
        go_contacts (c ∷ cs) f = cc

world-IsSound : (secret : Result Secret) → IsSound (world secret)
world-IsSound secret = record {
  decodes = decodes;
  has_uri = λ k url r e. rw (sym (ok-injective e)) refl;
}

missing_secret_fails_example : (sync_account (world (err not_found)) "acme/issuer").1 ≢ ok tt
missing_secret_fails_example =
    missing_secret_fails (world (err not_found)) "acme/issuer" config_map (issuer "" "") (spec "")
      (world-IsAccount (err not_found)) tt refl

sync_account-Settles_example :
    All
      (Settles (world (ok key_secret)) "acme/issuer")
      (sync_account (world (ok key_secret)) "acme/issuer").0
sync_account-Settles_example =
    sync_account-Settles (world (ok key_secret)) (world-IsSound (ok key_secret)) "acme/issuer"
      config_map (issuer "" "") (spec "") (world-IsAccount (ok key_secret))

-- The refresh of the account gets its registration and writes the ConfigMap.
refreshes : length (sync_account (world (ok key_secret)) "acme/issuer").0 ≡ 2
unfolding sync_account account_found sync_config_map sync_issuer sync_acme with_account
    refresh_account refreshed save_issuer is_same_hash deep_equal private_key_from_secret is_deleted
    lookup insert dict_eq with_registration with_secret_name ◌>>=◌
refreshes = refl

abbrev written : ConfigMap
written = record { meta = meta "issuer"; contents = (Key.cert_issuer_data, "issuer") ∷ [] }

abbrev listing : AccountWorld
listing = record (world (ok key_secret)) { labelled = λ namespace. ok (written ∷ []) }

deletes : delete_secret listing (λ meta. ok "acme/issuer") (object key_secret) ≡ "acme/issuer" ∷ []
unfolding delete_secret enqueue_listed enqueue_users enqueue_stored enqueue_decoded enqueue_user
    enqueue_account key_or_none lookup
deletes = refl

delete_secret_lem_example :
    Any
      (λ k. k ≡ "acme/issuer")
      (delete_secret listing (λ meta. ok "acme/issuer") (object key_secret))
    ↔ Any (IsUser listing (λ meta. ok "acme/issuer") key_secret "acme/issuer") (written ∷ [])
delete_secret_lem_example =
    delete_secret_lem listing (λ meta. ok "acme/issuer") key_secret "acme/issuer" (written ∷ [])
      refl
