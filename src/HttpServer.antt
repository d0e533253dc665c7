-- ===== src/HttpServer.antt =====
-- pkg/httpserver/http.go: the server that exposes the tokens, its table of responses as the state.
pub mod Lines
pub mod Served
use openshift_acme.Common.{
  ℕ, suc, String, Bool, Option, none, some, List, [], ◌∷◌, Dict, lookup, insert, if◌then◌else◌,
  is_empty,
}
use openshift_acme.Errors.{Error, Result, ok, err, cannot_parse_line}
use openshift_acme.Strings.{trim_space, cut, split}

pub record Server : Type 0 where
  pub uri_to_response : Dict String
  pub addr : String
  pub listening_addr : String

table_or_new : Option (Dict String) → Dict String
table_or_new none = []
table_or_new (some table) = table

-- `NewServer`; `none` is the nil map.
unfoldable pub new_server : String → Option (Dict String) → Server
unfolding table_or_new
new_server listen_addr table = record {
  uri_to_response = table_or_new table;
  addr = listen_addr;
  listening_addr = "";
}

-- What a line of the file is: blank, a URI with its response, or neither.
pub data Line : Type 0 where
  blank malformed : Line
  entry : String → String → Line

unfoldable pub line_of_parts : Option (String × String) → Line
line_of_parts none = malformed
line_of_parts (some (uri, response)) = entry uri response

unfoldable pub read_line : String → Line
unfolding line_of_parts
read_line l = if is_empty (trim_space l) then blank else line_of_parts (cut b' ' l)

-- The loop over the lines, with the number of the next one. An error leaves what was stored before.
unfoldable pub parse_lines : ℕ → List String → Dict String → Dict String × Result (Unit {0})
parse_lines n [] table = (table, ok tt)
parse_lines n (l ∷ ls) table = elim (read_line l) [
  | blank ↦ parse_lines (suc n) ls table
  | malformed ↦ (table, err (cannot_parse_line n))
  | entry uri response ↦ parse_lines (suc n) ls (insert uri response table)
]

-- `ParseData`
unfoldable pub parse_data : String → Server → Server × Result (Unit {0})
parse_data text s =
    let (table, result) = parse_lines 0 (split b'\n' text) s.uri_to_response in
    (record s { uri_to_response = table }, result)

pub record Response : Type 0 where
  pub content_type : String
  pub status_code : ℕ
  pub body : String

respond : Option String → Response
respond none = record { content_type = "text/plain"; status_code = 404; body = "" }
respond (some text) = record { content_type = "text/plain"; status_code = 200; body = text }

-- `handler`, for the URI of the request.
unfoldable pub handler : Server → String → Response
unfolding respond
handler s uri = respond (lookup uri s.uri_to_response)

-- `setListeningAddr` and `getListeningAddr`, which hold a mutex.
unfoldable pub set_listening_addr : String → Server → Server
set_listening_addr addr s = record s { listening_addr = addr }

unfoldable pub get_listening_addr : Server → String
get_listening_addr s = s.listening_addr

-- `WaitForConnect`: at each poll until the context is done, the server as it is then and whether an
-- address can be dialled. The error of the context is that of the poll.
unfoldable pub wait_for_connect : Error → List (Server × (String → Bool)) → Result (Unit {0})
unfolding get_listening_addr
wait_for_connect e [] = err e
wait_for_connect e ((s, dials) ∷ polls) =
    let rest = wait_for_connect e polls in if dials (get_listening_addr s) then ok tt else rest
