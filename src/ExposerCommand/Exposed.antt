-- ===== src/ExposerCommand/Exposed.antt =====
-- The exposer's server with the file of the exposer secret.
use Prim.Native.String.{◌++◌ as ◌+++◌}
use mathlib.Core.Option.{some-injective}
use openshift_acme.Common.{
  sym, ◌∙◌, ◌≡◌, refl, String, some, none, [], ◌∷◌, codes, lookup, lookup-insert, insert, eq_refl,
  arith, true, ap, ℕ, zero, suc, List, All, take, length, length-take, ◌↔◌, ◌<◌, ◌≤◌,
}
use openshift_acme.Errors.{ok}
use openshift_acme.Kube.{Route, ObjectMeta, Bytes}
use openshift_acme.World.{World}
use openshift_acme.Exposer.{Exposure, desired_secret}
use openshift_acme.Token.{Reply, validate_exposed_token, judge_reply, bytes_eq}
use openshift_acme.ExposerCommand.{ExposerEnvironment, ExposerOptions, prepare_server}
use openshift_acme.HttpServer.{new_server, handler, Server, Response}
use openshift_acme.HttpServer.Served.{FitsLine, line_of, parse_data-line_of}

-- What a client makes of the server's answer: the first read fills the buffer as far as the body goes.
abbrev pub reply_of : Response → Reply
reply_of r = record {
  status_code = r.status_code;
  first_read = λ size. ok (take size (codes r.body));
}

take-short : {A : Type 0} (n : ℕ) (xs : List A) → length xs ≤ n → take n xs ≡ xs
take-short zero [] h = refl
take-short zero (x ∷ xs) h = absurd (omega (arith, h))
take-short (suc n) [] h = refl
take-short (suc n) (x ∷ xs) h = ap (λ ys. x ∷ ys) (take-short n xs (omega (arith, h)))

bytes_eq_refl : (bs : Bytes) → bytes_eq bs bs ≡ true
unfolding bytes_eq
bytes_eq_refl [] = refl
bytes_eq_refl (b ∷ bs) = ground (arith, bytes_eq_refl bs)

bytes_eq-length : (xs ys : Bytes) → bytes_eq xs ys ≡ true → length xs ≡ length ys
unfolding bytes_eq
bytes_eq-length [] [] h = refl
bytes_eq-length [] (y ∷ ys) h = cc h
bytes_eq-length (x ∷ xs) [] h = cc h
bytes_eq-length (x ∷ xs) (y ∷ ys) h = omega (arith, bytes_eq-length xs ys (ground (arith, h)))

-- Only a text that the buffer has room for is read as a whole.
bytes_eq-take : (n : ℕ) (xs : Bytes) → bytes_eq (take n xs) xs ≡ true ↔ length xs ≤ n
bytes_eq-take n xs = (
  λ h. omega (arith, length-take n xs, bytes_eq-length (take n xs) xs h),
  λ h. rw (take-short n xs h) (bytes_eq_refl xs),
)

judge_reply-ok :
    (body expected : Bytes) → judge_reply 200 body expected ≡ ok tt ↔ bytes_eq body expected ≡ true
unfolding judge_reply
judge_reply-ok body expected = (λ h. ground (arith, h), λ h. rw h refl)

module _ (w : World) (route : Route) (e : Exposure) (owner : ObjectMeta) (env : ExposerEnvironment)
    (o : ExposerOptions) where
  -- The exposer's server once it has read the file.
  served : Server
  served = record {
    uri_to_response = insert e.path e.response [];
    addr = o.listen_ip +++ (":" +++ env.decimal o.port);
    listening_addr = "";
  }

  prepared :
      FitsLine (e.path, e.response)
      → env.read_file o.response_file ≡ ok (line_of (e.path, e.response))
      → prepare_server env o ≡ ok served
  unfolding prepare_server served new_server
  prepared f read = rw (read, parse_data-line_of (e.path, e.response) (new_server _ none) f) refl

  secret_file :
      (text : String)
      → lookup "exposer-file" (desired_secret w route e owner).contents ≡ some text
      → text ≡ line_of (e.path, e.response)
  unfolding desired_secret lookup
  secret_file text h = sym (some-injective _ _ h)

  served_response : lookup e.path served.uri_to_response ≡ some e.response
  unfolding served
  served_response = simp (lookup-insert, eq_refl)

  -- If the exposer's response file is the file of the secret that `sync` creates, then the exposer
  -- prepares its server, and with the server's answer to a request for the path of the challenge the
  -- self validation of `sync` succeeds exactly if the response has at most 2048 bytes. Assumed is that
  -- the path and the response fit in a line, that the response is ASCII, and that the first read of
  -- the body fills the buffer as far as the body goes.
  pub exposed_token_validates :
      (text url : String)
      → FitsLine (e.path, e.response)
      → All (λ c. c < 128) (codes e.response)
      → lookup "exposer-file" (desired_secret w route e owner).contents ≡ some text
      → env.read_file o.response_file ≡ ok text
      → (server : Server) × (prepare_server env o ≡ ok server)
        × (validate_exposed_token
                (λ _. ok (reply_of (handler server e.path)))
                url
                (codes e.response)
              ≡ ok tt
            ↔ length (codes e.response) ≤ 2048)
  unfolding validate_exposed_token handler
  exposed_token_validates text url f ascii mounted read =
      let same = bytes_eq-take 2048 (codes e.response) in
      let judged = judge_reply-ok (take 2048 (codes e.response)) (codes e.response) in
      (
        served,
        prepared f (read ∙ ap ok (secret_file text mounted)),
        rw served_response (λ h. same.0 (judged.0 h), λ h. judged.1 (same.1 h)),
      )
