-- ===== src/Tests/Servers.antt =====
-- A server with the lines of a file, a line that it refuses, and the token of a challenge.
use openshift_acme.Common.{
  String, ◌≡◌, refl, not, is_empty, none, some, Dict, List, [], ◌∷◌, arith, codes, lookup, insert,
  All, length, ◌↔◌, ◌≤◌,
}
use openshift_acme.Errors.{ok, err, not_found, cannot_parse_line}
use openshift_acme.Strings.{is_space, split, cut, trim_space}
use openshift_acme.Strings.Trim.{all_space}
use openshift_acme.Token.{validate_exposed_token}
use openshift_acme.Exposer.{Exposure, desired_secret}
use openshift_acme.Acme.{pending}
use openshift_acme.Reconcile.Sample.{world_with, status, route}
use openshift_acme.HttpServer.{
  wait_for_connect, set_listening_addr, get_listening_addr, Server, parse_data, handler, read_line,
  parse_lines,
}
use openshift_acme.HttpServer.Served.{
  IsReadableLine, is_blank, is_entry, lines_with, parse_data-malformed,
}
use openshift_acme.ExposerCommand.{ExposerEnvironment, new_exposer_options, prepare_server}
use openshift_acme.ExposerCommand.Exposed.{reply_of, exposed_token_validates}

abbrev server : Server
server = record { uri_to_response = []; addr = "0.0.0.0:5000"; listening_addr = "" }

-- The lines of a file, the second of them blank, the last of them without a URI.
abbrev earlier : List String
earlier = "/a one" ∷ " " ∷ "/b two words" ∷ " three" ∷ []

readable : All IsReadableLine earlier
unfolding all_space is_space
readable = (
  record { readable = is_entry "/a" "one" refl refl (ground arith); one_line = ground arith },
  (
    record { readable = is_blank refl; one_line = ground arith },
    (
      record {
        readable = is_entry "/b" "two words" refl refl (ground arith);
        one_line = ground arith;
      },
      (
        record { readable = is_entry "" "three" refl refl (ground arith); one_line = ground arith },
        tt,
      ),
    ),
  ),
)

abbrev stored : Dict String
stored = insert "" "three" (insert "/b" "two words" (insert "/a" "one" []))

parse_data-malformed_example :
    parse_data (lines_with earlier "nospace\n/c four") server
    ≡ (record server { uri_to_response = stored }, err (cannot_parse_line 4))
unfolding all_space is_space readable
parse_data-malformed_example =
    parse_data-malformed earlier "nospace" (some "/c four") server readable refl (ground arith)
      (ground arith)

answers : (handler (parse_data "/a one\n\n/b two words" server).0 "/b").body ≡ "two words"
unfolding parse_data parse_lines read_line split cut trim_space lookup insert handler
answers = refl

abbrev exposed : Exposure
exposed = record {
  id = "id";
  name = "exposer-1";
  key = "web/shop";
  path = "/.well-known/acme-challenge/t";
  response = "t.thumb";
}

abbrev environment : ExposerEnvironment
environment = record {
  port_messages = λ _. [];
  ip_messages = λ _. [];
  read_file = λ _. ok "/.well-known/acme-challenge/t t.thumb";
  decimal = λ _. "5000";
}

exposed_token_validates_example :
    (s : Server) × (prepare_server environment new_exposer_options ≡ ok s)
    × (validate_exposed_token
            (λ _. ok (reply_of (handler s exposed.path)))
            "http://shop.example"
            (codes "t.thumb")
          ≡ ok tt
        ↔ length (codes "t.thumb") ≤ 2048)
unfolding all_space is_space desired_secret lookup
exposed_token_validates_example =
    exposed_token_validates (world_with none pending (status pending "o1")) route exposed route.meta
      environment new_exposer_options "/.well-known/acme-challenge/t t.thumb" "http://shop.example"
      (record { visible = refl; no_space = ground arith; one_line = ground arith }) (omega arith)
      refl refl

-- The first poll comes before the server listens, and the second one after.
waits :
    wait_for_connect not_found (
      (server, λ addr. not (is_empty addr))
      ∷ (set_listening_addr "127.0.0.1:5000" server, λ addr. not (is_empty addr))
      ∷ [])
    ≡ ok tt
unfolding wait_for_connect set_listening_addr get_listening_addr
waits = refl
