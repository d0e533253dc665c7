-- ===== src/Token.antt =====
-- pkg/controllerutils/controllerutils.go, `ValidateExposedToken`: the check of an exposed token before
-- the challenge is accepted. The HTTP client is a parameter: it gives the status code of the reply
-- to a GET and the bytes of the first read of its body into a buffer of a size.
use openshift_acme.Common.{ℕ, String, Bool, true, false, ◌&&◌, not, [], ◌∷◌, if◌then◌else◌, ◌==◌}
use openshift_acme.Errors.{Result, ok, err, external, ◌>>=◌}
use openshift_acme.Kube.{Bytes}

pub record Reply : Type 0 where
  pub status_code : ℕ
  pub first_read : ℕ → Result Bytes

-- The size of the buffer.
abbrev pub buffer_size : ℕ
buffer_size = 2048

unfoldable pub bytes_eq : Bytes → Bytes → Bool
bytes_eq [] [] = true
bytes_eq [] (b ∷ bs) = false
bytes_eq (a ∷ as') [] = false
bytes_eq (a ∷ as') (b ∷ bs) = a == b && bytes_eq as' bs

unfoldable pub judge_reply : ℕ → Bytes → Bytes → Result (Unit {0})
unfolding bytes_eq
judge_reply code body expected =
    if not (code == 200)
    then err (external "unexpected status code")
    else if not (bytes_eq body expected)
    then err (external "response body doesn't match expected data")
    else ok tt

unfoldable pub validate_exposed_token : (String → Result Reply) → String → Bytes → Result (Unit {0})
unfolding judge_reply
validate_exposed_token http_get url expected = do
  reply ← http_get url
  body ← reply.first_read buffer_size
  judge_reply reply.status_code body expected
