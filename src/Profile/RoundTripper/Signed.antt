-- ===== src/Profile/RoundTripper/Signed.antt =====
-- Profile.RoundTripper: the request for a new order that is sent.
use Prim.Native.String.{◌++◌ as ◌+++◌}
use openshift_acme.Common.{
  String, true, false, not, ◌≡◌, refl, sym, Option, none, some, All, if◌then◌else◌, str_eq,
  is_empty, Dict, lookup, insert, lookup-insert, codes, ◌&&◌, eq_refl, length, ap, ◌∙◌,
}
use mathlib.Core.Path.{subst}
use openshift_acme.Errors.{
  Result, ok, err, require, continue_with-ok, require-ok, ok-injective, invalid_payload,
  invalid_claims, cannot_encode_claims,
}
use openshift_acme.Kube.{Bytes}
use openshift_acme.Profile.RoundTripper.{
  Request, Jws, Tools, Tripper, with_profile, signing_input, resigned, rewrite_new_order_jws,
  send_rewritten, post, round_trip,
}

module _ {V : Type 0} (tools : Tools V) where
  -- The codecs read what they have written.
  pub record IsCodec : Type 0 where
    pub jws :
        (j : Jws) (bytes : Bytes)
        → tools.encode_jws j ≡ some bytes
        → tools.decode_jws bytes ≡ some j
    pub base64 : (bytes : Bytes) → tools.decode_base64 (tools.encode_base64 bytes) ≡ some bytes
    pub claims :
        (c : Dict V) (bytes : Bytes)
        → tools.encode_claims c ≡ some bytes
        → tools.decode_claims bytes ≡ some (some c)

  -- The claims of a token.
  pub record Claims (j : Jws) (c : Dict V) : Type 0 where
    pub payload : Bytes
    pub decoded : tools.decode_base64 j.payload ≡ some payload
    pub claimed : tools.decode_claims payload ≡ some (some c)

  -- The token `new` is `old` with the profile as one more claim, signed by the account key.
  pub record IsSigned (profile : String) (old new : Jws) : Type 0 where
    pub protected : new.protected ≡ old.protected
    pub before : Dict V
    pub had : Claims old before
    pub after : Dict V
    pub has : Claims new after
    pub only_profile :
        (name : String)
        → lookup name after
          ≡ (if str_eq "profile" name then some (tools.text profile) else lookup name before)
    pub signature : Bytes
    pub signed :
        tools.sign (tools.sum256 (codes (new.protected +++ ("." +++ new.payload)))) ≡ ok signature
    pub signature_text : new.signature ≡ tools.encode_base64 signature

  with_profile-ok :
      (value : V) (c : Option (Dict V)) (after : Dict V)
      → with_profile value c ≡ ok after
      → (before : Dict V) × (c ≡ some before) × (after ≡ insert "profile" value before)
  unfolding with_profile
  with_profile-ok value none after h = cc
  with_profile-ok value (some before) after h = (before, refl, sym (ok-injective h))

  module _ (codec : IsCodec) (profile : String) (j : Jws) where
    rewrite-IsSigned :
        (bytes rewritten : Bytes)
        → tools.decode_jws bytes ≡ some j
        → is_empty j.payload ≡ false
        → rewrite_new_order_jws tools bytes profile ≡ ok rewritten
        → (new : Jws) × (tools.decode_jws rewritten ≡ some new) × IsSigned profile j new
    unfolding rewrite_new_order_jws resigned signing_input
    rewrite-IsSigned bytes rewritten decoded given h =
        let h0 = rw (decoded, given) at h in
        let (payload, r1, h1) =
          continue_with-ok (require (tools.decode_base64 j.payload) invalid_payload) _ rewritten
            h0 in
        let (claims, r2, h2) =
          continue_with-ok (require (tools.decode_claims payload) invalid_claims) _ rewritten h1 in
        let (after, r3, h3) =
          continue_with-ok (with_profile (tools.text profile) claims) _ rewritten h2 in
        let (encoded, r4, h4) =
          continue_with-ok (require (tools.encode_claims after) cannot_encode_claims) _ rewritten
            h3 in
        let (new, r5, h5) = continue_with-ok (resigned tools j encoded) _ rewritten h4 in
        let (signature, r6, h6) =
          continue_with-ok
            (tools.sign (
              tools.sum256
                (signing_input tools (record j { payload = tools.encode_base64 encoded }))))
            _ new r5 in
        let (before, is_before, is_after) = with_profile-ok _ claims after r3 in
        let changed : Jws = record j { payload = tools.encode_base64 encoded } in
        let same : new ≡ record changed { signature = tools.encode_base64 signature } =
          sym (ok-injective h6) in
        (
          new,
          codec.jws new rewritten (require-ok _ _ _ h5),
          rw same (record {
            protected = refl;
            before = before;
            had = record {
              payload = payload;
              decoded = require-ok _ _ _ r1;
              claimed = require-ok _ _ _ r2 ∙ ap some is_before;
            };
            after = after;
            has = record {
              payload = encoded;
              decoded = codec.base64 encoded;
              claimed = codec.claims after encoded (require-ok _ _ _ r4);
            };
            only_profile =
                λ name. rw is_after (lookup-insert "profile" name (tools.text profile) before);
            signature = signature;
            signed = r6;
            signature_text = refl;
          }),
        )

  module _ (codec : IsCodec) (j : Jws) (t : Tripper) (req : Request) (bytes : Bytes)
      (decoded : tools.decode_jws bytes ≡ some j) (given : is_empty j.payload ≡ false) where
    -- A request whose body is the token with the profile.
    pub record IsProfiled (sent : Request) : Type 0 where
      pub method : sent.method ≡ req.method
      pub url : sent.url ≡ req.url
      pub content : Bytes
      pub body : sent.body ≡ some (record { content = content; complete = true })
      pub counted : sent.content_length ≡ length content
      pub new : Jws
      pub is_new : tools.decode_jws content ≡ some new
      pub is_signed : IsSigned t.profile j new

    rewritten-IsProfiled :
        (r : Result Bytes)
        → rewrite_new_order_jws tools bytes t.profile ≡ r
        → All IsProfiled (send_rewritten tools t req r).sent
    unfolding send_rewritten
    rewritten-IsProfiled (err e) h = tt
    rewritten-IsProfiled (ok rewritten) h =
        let (new, is_new, is_signed) =
          rewrite-IsSigned codec t.profile j bytes rewritten decoded given h in
        (
          record {
            method = refl;
            url = refl;
            content = rewritten;
            body = refl;
            counted = refl;
            new = new;
            is_new = is_new;
            is_signed = is_signed;
          },
          tt,
        )

    -- Where the order URL is known, a POST to it whose body is a token with a payload is never sent as
    -- it is: all that is sent is a request with the same method and URL whose body is the token with
    -- the profile as its claim of that name, with all its other claims, and signed by the account key.
    -- Assumed is that the codecs read what they have written.
    pub new_order_carries_profile :
        req.method ≡ "POST"
        → is_empty t.order_url ≡ false
        → req.url ≡ t.order_url
        → req.body ≡ some (record { content = bytes; complete = true })
        → All IsProfiled (round_trip tools t req).sent
    unfolding round_trip post
    new_order_carries_profile is_post known to_order has_body =
        let not_get : str_eq req.method "GET" ≡ false = rw is_post refl in
        let is_new : (str_eq req.method "POST"
              && (not (is_empty t.order_url) && str_eq req.url t.order_url))
            ≡ true =
          rw (is_post, known, to_order, eq_refl t.order_url) refl in
        let sent =
          subst (λ b. All IsProfiled (post tools t req b).sent) (sym has_body)
            (rewritten-IsProfiled _ refl) in
        rw (not_get, is_new) sent
