-- ===== src/Tests/Trips.antt =====
-- The profile in the request for a new order, with codecs of a small world.
use Prim.Native.Char.{code}
use openshift_acme.Common.{
  ℕ, zero, suc, ◌+◌, String, true, ◌≡◌, refl, ap, ◌∙◌, Option, none, some, [], ◌∷◌, All, Any, ◌⊎◌,
  if◌then◌else◌, str_eq, ◌==◌, ◌&&◌, Dict, eq_iff, arith, lookup, insert, length,
}
use openshift_acme.Errors.{ok}
use openshift_acme.Kube.{Bytes}
use openshift_acme.Profile.RoundTripper.{
  Request, Jws, Tools, Tripper, new_tripper, round_trip, read_directory, learn, get, offered,
  is_empty_dict, post, rewrite_new_order_jws, send_rewritten, resigned, with_profile,
}
use openshift_acme.Profile.RoundTripper.Signed.{IsCodec, IsProfiled, new_order_carries_profile}
use openshift_acme.Profile.RoundTripper.Learned.{trips, IsOffered, order_url-IsOffered}

-- A byte as so many letters and a letter that ends it.
abbrev write_byte : ℕ → String → String
write_byte zero rest = String.◌∷◌ "b" rest
write_byte (suc n) rest = String.◌∷◌ "a" (write_byte n rest)

abbrev write_bytes : Bytes → String
write_bytes [] = ""
write_bytes (b ∷ bs) = write_byte b (write_bytes bs)

abbrev prepend : ℕ → Option Bytes → Option Bytes
prepend n none = none
prepend n (some bs) = some (n ∷ bs)

abbrev read_bytes : ℕ → String → Option Bytes
read_bytes n String.[] = some []
read_bytes n (String.◌∷◌ c s) =
    let longer = read_bytes (suc n) s in
    let rest = prepend n (read_bytes 0 s) in if code c == b'a' then longer else rest

read_byte :
    (k n : ℕ) (rest : String)
    → read_bytes k (write_byte n rest) ≡ prepend (n + k) (read_bytes 0 rest)
read_byte k zero rest = let e : 0 + k ≡ k = omega arith in rw e refl
read_byte k (suc n) rest =
    let e : n + suc k ≡ suc n + k = omega arith in
    read_byte (suc k) n rest ∙ ap (λ m. prepend m (read_bytes 0 rest)) e

read_write : (bytes : Bytes) → read_bytes 0 (write_bytes bytes) ≡ some bytes
read_write [] = refl
read_write (b ∷ bs) =
    let e : b + 0 ≡ b = omega arith in read_byte 0 b (write_bytes bs) ∙ rw (e, read_write bs) refl

-- A codec of the one token and of the one map of claims that are written.
abbrev encode_jws : Jws → Option Bytes
encode_jws j =
    if str_eq j.protected "p" && (str_eq j.payload "b" && str_eq j.signature "")
    then some (0 ∷ [])
    else none

abbrev decode_jws : Bytes → Option Jws
decode_jws [] = none
decode_jws (zero ∷ bs) = some (record { protected = "p"; payload = "b"; signature = "" })
decode_jws (suc n ∷ bs) = some (record { protected = "p"; payload = "ab"; signature = "ab" })

abbrev encode_claims : Dict String → Option Bytes
encode_claims ((name, value) ∷ []) =
    if str_eq name "profile" && str_eq value "short" then some (0 ∷ []) else none
encode_claims _ = none

abbrev decode_claims : Bytes → Option (Option (Dict String))
decode_claims [] = none
decode_claims (zero ∷ bs) = some (some (("profile", "short") ∷ []))
decode_claims (suc n ∷ bs) = some (some [])

abbrev tools : Tools String
tools = record {
  decode_directory =
      λ bytes. some (record { new_order = "order"; profiles = ("short", "brief") ∷ [] });
  decode_jws = decode_jws;
  encode_jws = encode_jws;
  decode_base64 = read_bytes 0;
  encode_base64 = write_bytes;
  decode_claims = decode_claims;
  encode_claims = encode_claims;
  text = λ profile. profile;
  sum256 = λ bytes. bytes;
  sign = λ bytes. ok [];
  base = λ req.
      ok (record { status_code = 200; body = some (record { content = []; complete = true }) });
}

claims_read :
    (c : Dict String) (bytes : Bytes)
    → encode_claims c ≡ some bytes
    → decode_claims bytes ≡ some (some c)
claims_read [] bytes h = cc
claims_read ((name, value) ∷ []) bytes h =
    ground (arith, h, eq_iff name "profile", eq_iff value "short")
claims_read (e ∷ f ∷ es) bytes h = cc

jws_read : (j : Jws) (bytes : Bytes) → encode_jws j ≡ some bytes → decode_jws bytes ≡ some j
jws_read j bytes h =
    ground (arith, h, eq_iff j.protected "p", eq_iff j.payload "b", eq_iff j.signature "")

tools-IsCodec : IsCodec tools
tools-IsCodec = record { jws = jws_read; base64 = read_write; claims = claims_read }

abbrev fresh : Tripper
fresh = new_tripper "short"

abbrev informed : Tripper
informed = record { profile = "short"; order_url = "order" }

abbrev directory_request : Request
directory_request = record { method = "GET"; url = "directory"; body = none; content_length = 0 }

abbrev order_request : Request
order_request = record {
  method = "POST";
  url = "order";
  body = some (record { content = 1 ∷ []; complete = true });
  content_length = 1;
}

abbrev order_token : Jws
order_token = record { protected = "p"; payload = "ab"; signature = "ab" }

learns : trips fresh ((tools, directory_request) ∷ []) ≡ informed
unfolding round_trip read_directory learn get offered lookup is_empty_dict
learns = refl

sends_one : length (round_trip tools informed order_request).sent ≡ 1
unfolding round_trip post rewrite_new_order_jws send_rewritten resigned with_profile insert
sends_one = refl

new_order_carries_profile_example :
    All
      (IsProfiled tools tools-IsCodec order_token informed order_request (1 ∷ []) refl refl)
      (round_trip tools informed order_request).sent
new_order_carries_profile_example =
    new_order_carries_profile tools tools-IsCodec order_token informed order_request (1 ∷ []) refl
      refl refl refl refl refl

order_url-IsOffered_example :
    ((trips fresh ((tools, directory_request) ∷ [])).order_url ≡ "")
    ⊎ Any
        (IsOffered "short" (trips fresh ((tools, directory_request) ∷ [])).order_url)
        ((tools, directory_request) ∷ [])
order_url-IsOffered_example = order_url-IsOffered fresh ((tools, directory_request) ∷ [])
