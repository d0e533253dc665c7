-- ===== src/ExposerCommand.antt =====
-- pkg/cmd/openshift-acme-exposer/openshift-acme-exposer.go: the options of the exposer, and what `Run`
-- does up to the start of the server.
pub mod Exposed
pub mod Serving
pub mod Returns
use Prim.Native.String.{◌++◌ as ◌+++◌}
use openshift_acme.Common.{ℕ, String, List, [], ◌∷◌, none, if◌then◌else◌, str_eq}
use openshift_acme.Errors.{Result, ok, err, ◌>>=◌, missing_response_file, invalid_port, invalid_ip}
use openshift_acme.HttpServer.{Server, new_server, parse_data}

pub record ExposerOptions : Type 0 where
  pub response_file : String
  pub port : ℕ
  pub listen_ip : String

-- `NewExposerOptions`
unfoldable pub new_exposer_options : ExposerOptions
new_exposer_options = record { response_file = ""; port = 5000; listen_ip = "0.0.0.0" }

-- `IsValidPortNum` and `IsValidIP`, which give messages, the file system, and the decimal digits of a
-- port.
pub record ExposerEnvironment : Type 0 where
  pub port_messages : ℕ → List String
  pub ip_messages : String → List String
  pub read_file : String → Result String
  pub decimal : ℕ → String

module _ (env : ExposerEnvironment) where
  check_ip : List String → Result (Unit {0})
  check_ip [] = ok tt
  check_ip (message ∷ messages) = err invalid_ip

  check_port : List String → ExposerOptions → Result (Unit {0})
  unfolding check_ip
  check_port [] o = check_ip (env.ip_messages o.listen_ip)
  check_port (message ∷ messages) o = err invalid_port

  -- `Validate`
  unfoldable pub validate_exposer : ExposerOptions → Result (Unit {0})
  unfolding check_port
  validate_exposer o =
      if str_eq o.response_file ""
      then err missing_response_file
      else check_port (env.port_messages o.port) o

  -- `Run`, until the server listens.
  unfoldable pub prepare_server : ExposerOptions → Result Server
  prepare_server o = do
    text ← env.read_file o.response_file
    let parsed = parse_data text (new_server (o.listen_ip +++ (":" +++ env.decimal o.port)) none)
    stored ← parsed.1
    ok parsed.0
