-- ===== src/ExposerCommand/Serving.antt =====
-- pkg/cmd/openshift-acme-exposer/openshift-acme-exposer.go, `Run`, with `Run` and `Shutdown` of
-- pkg/httpserver/http.go: the goroutines of the exposer, as steps in any order. The listener and the
-- server of net/http are not part of the repository: to listen and to serve may fail, and a server
-- that is shut down ends without an error. `Shutdown` is taken to return, with an error or without
-- one. A second signal ends the process, and with it the steps.
use openshift_acme.Common.{
  ℕ, String, Option, none, some, suc, Bool, true, false, ◌≡◌, List, [], ◌∷◌, ◌++◌,
}
use openshift_acme.Errors.{Error, ok, err}
use openshift_acme.Signals.{Signal, is_first}
use openshift_acme.HttpServer.{Server, set_listening_addr}
use openshift_acme.ExposerCommand.{ExposerOptions, ExposerEnvironment, prepare_server}

-- `Run` of the server: not called, before `net.Listen`, in `Serve`, and returned.
pub data Serving : Type 0 where
  absent opening serving closed : Serving

-- How `Run` of the server ends, with the errors that its goroutine sends; `shut` is whether `Shutdown`
-- was called.
pub data Serves (shut : Bool) (p : Serving) : Serving → List Error → Type 0 where
  cannot_listen : (e : Error) → p ≡ opening → Serves shut p closed (e ∷ [])
  breaks : (e : Error) → p ≡ serving → Serves shut p closed (e ∷ [])
  closes : shut ≡ true → p ≡ serving → Serves shut p closed []

-- The goroutine that shuts the server down: not started, before `<-ctx.Done()`, in `Shutdown`, and
-- returned.
pub data Closing : Type 0 where
  absent watching closing finished : Closing

pub data Closes (cancelled : Bool) (c : Closing) : Closing → List Error → Type 0 where
  shuts : cancelled ≡ true → c ≡ watching → Closes cancelled c closing []
  shut_down : c ≡ closing → Closes cancelled c finished []
  shut_down_fails : (e : Error) → c ≡ closing → Closes cancelled c finished (e ∷ [])

-- The goroutine of `Run`: before the server is prepared, before `wg.Wait()`, and returned.
pub data Main : Type 0 where
  reading waiting returned : Main

-- `setListeningAddr` on the server, once there is one.
abbrev pub listening : String → Option Server → Option Server
listening addr none = none
listening addr (some s) = some (set_listening_addr addr s)

-- `errors` is what `Run` returns, or what is in `errCh`; `serves` is the server.
pub record Exposing : Type 0 where
  pub main : Main
  pub server : Serving
  pub closer : Closing
  pub stop : Bool
  pub ctx_done : Bool
  pub errors : List Error
  pub serves : Option Server

-- Whether the goroutine that shuts down has called `Shutdown`.
abbrev pub is_shut : Closing → Bool
is_shut closing = true
is_shut finished = true
is_shut _ = false

pub data Step (env : ExposerEnvironment) (o : ExposerOptions) (s : Exposing)
    : Exposing → Type 0 where
  signalled :
      (signal : Signal s.stop) → is_first signal ≡ true → Step env o s (record s { stop = true })
  watched : s.stop ≡ true → s.ctx_done ≡ false → Step env o s (record s { ctx_done = true })
  refuses :
      {e : Error}
      → s.main ≡ reading
      → prepare_server env o ≡ err e
      → Step env o s (record s { main = returned; errors = e ∷ [] })
  starts :
      {server : Server}
      → s.main ≡ reading
      → prepare_server env o ≡ ok server
      → Step env o s
          (record s { main = waiting; server = opening; closer = watching; serves = some server })
  listens :
      (addr : String)
      → s.server ≡ opening
      → Step env o s (record s { server = serving; serves = listening addr s.serves })
  server_moves :
      {p : Serving} {es : List Error}
      → Serves (is_shut s.closer) s.server p es
      → Step env o s (record s { server = p; errors = s.errors ++ es })
  closer_moves :
      {c : Closing} {es : List Error}
      → Closes s.ctx_done s.closer c es
      → Step env o s (record s { closer = c; errors = s.errors ++ es })
  returns :
      s.main ≡ waiting
      → s.server ≡ closed
      → s.closer ≡ finished
      → Step env o s (record s { main = returned })

abbrev pub initial : Exposing
initial = record {
  main = reading;
  server = Serving.absent;
  closer = Closing.absent;
  stop = false;
  ctx_done = false;
  errors = [];
  serves = none;
}

-- The states that a number of steps leads to from the start of `Run`.
pub data Run (env : ExposerEnvironment) (o : ExposerOptions) : ℕ → Exposing → Type 0 where
  begins : Run env o 0 initial
  goes_on : {n : ℕ} {s t : Exposing} → Run env o n s → Step env o s t → Run env o (suc n) t
