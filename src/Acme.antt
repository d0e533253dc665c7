-- ===== src/Acme.antt =====
-- The types of the ACME client (golang.org/x/crypto/acme) that the route controller uses. The
-- client itself is a parameter: the functions of `Client` give its replies.
pub mod Same
use openshift_acme.Common.{ℕ, String, Bool, true, false, ◌&&◌, List, ◌==◌, str_eq}
use openshift_acme.Kube.{Bytes}
use openshift_acme.Errors.{Result}

-- The statuses of orders, authorizations and challenges: `none_yet` is the empty text, `unknown` any
-- text that is no constant of the client's.
pub data AcmeStatus : Type 0 where
  none_yet pending processing ready valid invalid expired revoked deactivated : AcmeStatus
  unknown : String → AcmeStatus

tag : AcmeStatus → ℕ
tag none_yet = 0
tag pending = 1
tag processing = 2
tag ready = 3
tag valid = 4
tag invalid = 5
tag expired = 6
tag revoked = 7
tag deactivated = 8
tag (unknown s) = 9

detail : AcmeStatus → String
detail (unknown s) = s
detail _ = ""

-- The comparison of two texts.
unfoldable pub same_status : AcmeStatus → AcmeStatus → Bool
unfolding tag detail
same_status a b = tag a == tag b && str_eq (detail a) (detail b)

unfoldable pub is_none_yet : AcmeStatus → Bool
is_none_yet none_yet = true
is_none_yet _ = false

pub record Challenge : Type 0 where
  pub type : String
  pub uri : String
  pub token : String
  pub status : AcmeStatus

pub record Authorization : Type 0 where
  pub uri : String
  pub status : AcmeStatus
  pub challenges : List Challenge

pub record Order : Type 0 where
  pub uri : String
  pub status : AcmeStatus
  pub authz_urls : List String
  pub finalize_url : String

-- `get_order` returns `not_found` for a reply with the HTTP status 404.
pub record Client : Type 0 where
  pub authorize_order : String → Result Order
  pub get_order : String → Result Order
  pub get_authorization : String → Result Authorization
  pub challenge_path : String → String
  pub challenge_response : String → Result String
  pub accept : Challenge → Result (Unit {0})
  pub create_order_cert : String → Bytes → Result (List Bytes)

pub record ClientConfig : Type 0 where
  pub directory_url : String
  pub key : Bytes
  pub profile : String
