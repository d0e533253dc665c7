-- ===== src/Profile/RoundTripper.antt =====
-- pkg/controller/route/route.go: `acmeProfileRoundTripper`, which adds the profile to the request for
-- a new order, after the directory of the ACME server has offered it.
pub mod Signed
pub mod Learned
use Prim.Native.String.{◌++◌ as ◌+++◌}
use openshift_acme.Common.{
  ℕ, String, Bool, true, false, not, ◌&&◌, Option, none, some, List, [], ◌∷◌, if◌then◌else◌, ◌==◌,
  str_eq, is_empty, Dict, lookup, insert, length, codes,
}
use openshift_acme.Errors.{
  Error, Result, ok, err, require, ◌>>=◌, no_profiles, unknown_profile, invalid_jws,
  invalid_payload, invalid_claims, nil_claims, cannot_encode_claims, cannot_encode_jws, unread_body,
}
use openshift_acme.Kube.{Bytes}

-- What io.ReadAll reads of a body, and whether it gets to the end.
pub record Body : Type 0 where
  pub content : Bytes
  pub complete : Bool

pub record Request : Type 0 where
  pub method : String
  pub url : String
  pub body : Option Body
  pub content_length : ℕ

pub record Response : Type 0 where
  pub status_code : ℕ
  pub body : Option Body

pub record Directory : Type 0 where
  pub new_order : String
  pub profiles : Dict String

pub record Jws : Type 0 where
  pub protected : String
  pub payload : String
  pub signature : String

-- encoding/json on the three types and encoding/base64, SHA-256, the account key, and the base round
-- tripper. A claim is a value of `V`, and claims may be the nil map.
pub record Tools (V : Type 0) : Type 0 where
  pub decode_directory : Bytes → Option Directory
  pub decode_jws : Bytes → Option Jws
  pub encode_jws : Jws → Option Bytes
  pub decode_base64 : String → Option Bytes
  pub encode_base64 : Bytes → String
  pub decode_claims : Bytes → Option (Option (Dict V))
  pub encode_claims : Dict V → Option Bytes
  pub text : String → V
  pub sum256 : Bytes → Bytes
  pub sign : Bytes → Result Bytes
  pub base : Request → Result Response

-- The fields that may change or that differ between clients.
pub record Tripper : Type 0 where
  pub profile : String
  pub order_url : String

-- The round tripper of `acmeHTTPClientWithProfile`.
abbrev pub new_tripper : String → Tripper
new_tripper profile = record { profile = profile; order_url = "" }

-- The state after a request, the requests that were sent, and the reply.
pub record Trip : Type 0 where
  pub tripper : Tripper
  pub sent : List Request
  pub reply : Result Response

-- A write to the nil map panics.
unfoldable pub with_profile : {V : Type 0} → V → Option (Dict V) → Result (Dict V)
with_profile value none = err nil_claims
with_profile value (some claims) = ok (insert "profile" value claims)

unfoldable pub is_empty_dict : Dict String → Bool
is_empty_dict [] = true
is_empty_dict (e ∷ es) = false

module _ {V : Type 0} (tools : Tools V) where
  unfoldable pub signing_input : Jws → Bytes
  signing_input jws = codes (jws.protected +++ ("." +++ jws.payload))

  -- The token with another payload, signed again.
  unfoldable pub resigned : Jws → Bytes → Result Jws
  unfolding signing_input
  resigned jws payload = do
    let changed = record jws { payload = tools.encode_base64 payload }
    signature ← tools.sign (tools.sum256 (signing_input changed))
    ok (record changed { signature = tools.encode_base64 signature })

  -- `rewriteNewOrderJWSWithProfile`
  unfoldable pub rewrite_new_order_jws : Bytes → String → Result Bytes
  rewrite_new_order_jws bytes profile = do
    jws ← require (tools.decode_jws bytes) invalid_jws
    if is_empty jws.payload then ok bytes else do
      payload ← require (tools.decode_base64 jws.payload) invalid_payload
      claims ← require (tools.decode_claims payload) invalid_claims
      changed ← with_profile (tools.text profile) claims
      encoded ← require (tools.encode_claims changed) cannot_encode_claims
      signed ← resigned jws encoded
      require (tools.encode_jws signed) cannot_encode_jws

  module _ (t : Tripper) (req : Request) where
    unfoldable pub passed : Trip
    passed = record { tripper = t; sent = req ∷ []; reply = tools.base req }

    unfoldable pub got : Result Response → Trip
    got reply = record { tripper = t; sent = req ∷ []; reply = reply }

    unfoldable pub offered : Response → String → Option String → Trip
    unfolding got
    offered resp url none = got (err unknown_profile)
    offered resp url (some description) = record {
      tripper = record t { order_url = url };
      sent = req ∷ [];
      reply = ok resp;
    }

    unfoldable pub learn : Response → Option Directory → Trip
    unfolding got offered
    learn resp none = got (ok resp)
    learn resp (some d) =
        if is_empty d.new_order
        then got (ok resp)
        else if is_empty_dict d.profiles
        then got (err no_profiles)
        else offered resp d.new_order (lookup t.profile d.profiles)

    -- The response that is passed on has the bytes that were read, also after an error.
    unfoldable pub read_directory : Response → Option Body → Trip
    unfolding got learn
    read_directory resp none = got (ok resp)
    read_directory resp (some b) =
        let resp' = record resp { body = some (record b { complete = true }) } in
        if not b.complete then got (ok resp') else learn resp' (tools.decode_directory b.content)

    unfoldable pub get : Result Response → Trip
    unfolding got read_directory
    get (err e) = got (err e)
    get (ok resp) =
        if not (resp.status_code == 200) then got (ok resp) else read_directory resp resp.body

    unfoldable pub send_rewritten : Result Bytes → Trip
    send_rewritten (err e) = record { tripper = t; sent = []; reply = err e }
    send_rewritten (ok bytes) =
        let changed = record req {
          body = some (record { content = bytes; complete = true });
          content_length = length bytes;
        } in
        record { tripper = t; sent = changed ∷ []; reply = tools.base changed }

    unfoldable pub post : Option Body → Trip
    unfolding passed send_rewritten
    post none = passed
    post (some b) =
        if not b.complete
        then send_rewritten (err unread_body)
        else send_rewritten (rewrite_new_order_jws b.content t.profile)

    -- `RoundTrip`
    unfoldable pub round_trip : Trip
    unfolding passed get post
    round_trip =
        if str_eq req.method "GET"
        then get (tools.base req)
        else if str_eq req.method "POST"
            && (not (is_empty t.order_url) && str_eq req.url t.order_url)
        then post req.body
        else passed
