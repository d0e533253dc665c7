-- ===== src/Errors.antt =====
-- The errors that the operations of the controllers return, a constructor for each message, and
-- results of operations that may fail. `external` is an error that other code returned.
use openshift_acme.Common.{ℕ, ◌≡◌, refl, String, Option, none, some, Bool, true, false}

pub data Error : Type 0 where
  external : String → Error
  not_found : Error
  no_certificate_data : Error
  cannot_decode_certificate : Error
  cannot_decode_status : Error
  cannot_encode_status : Error
  no_issuer : Error
  missing_issuer_data : Error
  invalid_issuer_data : Error
  missing_secret_name : Error
  unsupported_issuer_type : Error
  missing_acme_issuer : Error
  missing_private_key : Error
  invalid_private_key : Error
  invalid_authz_status : Error
  no_viable_challenge : Error
  invalid_challenge_status : Error
  invalid_order_status : Error
  not_owned : Error
  missing_exposer_id : Error
  exposer_id_mismatch : Error
  empty_der : Error
  nil_account : Error
  invalid_namespaces : ℕ → Error
  missing_exposer_image : Error
  missing_response_file invalid_port invalid_ip : Error
  cannot_parse_line : ℕ → Error
  unexpected_event : String → Error
  no_profiles unknown_profile invalid_jws invalid_payload invalid_claims nil_claims : Error
  cannot_encode_claims cannot_encode_jws unread_body : Error
  no_namespaces nil_factory : Error
  invalid_flags empty_exposer_image invalid_exposer_image : Error

pub data Result {ℓ} (A : Type ℓ) : Type ℓ where
  ok : A → Result A
  err : Error → Result A

-- The rest of a function after `if err != nil { return err }`.
abbrev pub continue_with {ℓ κ} : {V : Type ℓ} {W : Type κ} → (V → Result W) → Result V → Result W
continue_with rest (err failure) = err failure
continue_with rest (ok value) = rest value

infixl 5 ◌>>=◌
abbrev pub ◌>>=◌ {ℓ κ} : {V : Type ℓ} {W : Type κ} → Result V → (V → Result W) → Result W
reply >>= rest = continue_with rest reply

-- A value that other code may not return, with the error that its absence is turned into.
abbrev pub require {ℓ} : {A : Type ℓ} → Option A → Error → Result A
require none e = err e
require (some a) e = ok a

-- `kapierrors.IsNotFound`, and the HTTP status 404 of the ACME server.
unfoldable pub is_not_found : Error → Bool
is_not_found not_found = true
is_not_found _ = false

-- A success of a chain is a success of its first call and of the rest.
pub continue_with-ok {ℓ κ} :
    {V : Type ℓ} {W : Type κ} (r : Result V) (rest : V → Result W) (w : W)
    → continue_with rest r ≡ ok w
    → (v : V) × (r ≡ ok v) × (rest v ≡ ok w)
continue_with-ok (err e) rest w h = cc
continue_with-ok (ok v) rest w h = (v, refl, h)

pub require-ok {ℓ} :
    {A : Type ℓ} (o : Option A) (e : Error) (a : A) → require o e ≡ ok a → o ≡ some a
require-ok none e a h = cc
require-ok (some a) e b h = cc

pub ok-injective {ℓ} : {A : Type ℓ} {a b : A} → ok a ≡ ok b → a ≡ b
ok-injective h = cc
