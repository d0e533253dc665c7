-- ===== src/Lib.antt =====
-- openshift-acme keeps the TLS certificates of OpenShift routes: for each route with the annotation
-- `kubernetes.io/tls-acme: "true"` it orders a certificate from an ACME server, proves the control of
-- the host by serving a token, stores the key and the certificate in the route, and renews them.
-- This library models the route controller and what it uses, the controller of the ACME
-- accounts and the server that answers the challenges, and proves what they do.
--
-- The parts, and the files of the repository that they are about:
--   * Reconcile (pkg/controller/route/route.go): `sync` is the function of that name, cut into
--     functions at its conditions and switches. Reconcile/Sync has the guards, the decision and the
--     handling of the order up to `client.GetOrder`; Reconcile/ClientFor the issuer and the client;
--     Reconcile/Order `switch order.Status` with the authorizations and the challenge;
--     Reconcile/Expose the objects that expose the token, the self validation and the acceptance.
--     The other children hold proofs: Acceptance, Reached, Justified, Authorized and Challenges
--     about which actions are taken and why, Outcomes about whole runs; Begin, Accepted, Lifecycle and
--     Rest follow a certificate from its order to its installation and after. Machine is the abstract state machine
--     of an order, and Saved, with Quiet, relates it to `sync`. Sample and Tests are concrete runs.
--   * Exposer, TemporaryName and LimitRanges (the same file): the exposer's Route, Secret, ReplicaSet
--     and Service, `getTemporaryName`, `filterOutAnnotations`, `filterOutLabels` and
--     `adjustContainerResourceRequirements`.
--   * Renewal and Backoff (the same file): `needsCertKey`, `proactiveRenewalThreshold`, and the delay
--     after failed orders. Status: `getStatus`, `setStatus`, `updateStatus`, with the types of
--     pkg/api/types.go; Status/Stored reads back what was set. Profile: `certProfileForRoute`, and in Profile/RoundTripper the round
--     tripper that adds the profile to a new order, over its own `Tools`.
--   * SecretSync (the same file): `syncRouteToSecret`, `GetSyncSecretName`, `resolveControllerRef`.
--   * Handlers (the same file): the handlers of the events of routes, replica sets and secrets.
--   * HttpServer (pkg/httpserver/http.go): the table of responses, `ParseData`, `handler`, the address
--     that is listened to and `WaitForConnect`.
--     ExposerCommand (pkg/cmd/openshift-acme-exposer): the options and the start of the exposer, and
--     in ExposerCommand/Serving the goroutines of `Run` with those of the server.
--   * Command (pkg/cmd/openshift-acme-controller): the goroutines of `Run`, with `Run` of both
--     controllers; Command/Invariant, Command/Ends and Command/Safety hold the proofs. Signals
--     (pkg/signals/signal.go): the channel that a signal closes.
--   * Options (pkg/cmd/openshift-acme-controller): `NewOptions`, `PersistentPreRunE`, `RunE`, `Validate`
--     and `Complete`. Start: `NewRouteController` and `NewAccountController`. Informers
--     (pkg/machinery/informers): the factories for the namespaces. Flags (pkg/cmd/util/helpers.go).
--     Strings: what these call of Go's package strings.
--   * Issuer and Token (pkg/controllerutils/controllerutils.go): `IssuerForObject` and
--     `ValidateExposedToken`. PrivateKey (pkg/helpers/helpers.go). Cert (pkg/cert/cert.go).
--   * Account (pkg/controller/issuer/acme/acme.go): `sync` of the account controller, cut as that of
--     the route controller, over its own `AccountWorld`. Account/Events: the handlers of its events.
--   * Workers (the files of both controllers): the workers of the queues. Util (pkg/util/util.go):
--     `FirstNLines`, `MaxNCharacters`, `CertificateFromPEM` and `RouteAdmittedFunc`.
--   * Kube: the fields of the API objects that the code uses, `IsManaged` and `IsTemporary`
--     (pkg/util/util.go) and `IsAdmitted` (pkg/route/route.go). Acme: the types of
--     golang.org/x/crypto/acme.
--   * Effects, Errors and Common: the actions and results of a run, and what the parts share.
--
-- A run is a function from a `World` (configuration, caches, replies, clock) to the list of the
-- calls that it makes, in their order, and its result; the calls before an error stay in the list.
-- Reads of the caches and of the clock are not recorded. `sync` calls time.Now at several places; each
-- place has its own time in `Clock`, so nothing is assumed on how much time passes. The API server and
-- the ACME server are parameters that give a reply to each call; the call of an update that
-- RetryOnConflict repeats also has the number of its attempt. Nothing is said of what they keep.
--
-- The two commands are relations of steps: a step is one of any goroutine, guarded by what the goroutine
-- waits for, and a run is a sequence of steps from the start of `Run`, so that all interleavings are
-- covered. A worker is only followed from its start to its end, or to a reconciliation that never
-- returns, and what it does between is `sync`.
-- The leader elector, the caches and the server of net/http take steps of their own accord, and their
-- calls are taken to return.
--
-- Numbers are native: a generation is of ℕ, times and durations are integers of nanoseconds. The
-- products of the delay and the quotients of quantities wrap around at 64 bits (`wrap64`), time.Sub
-- saturates (`time_sub`). All loops are structural: over the lists of authorizations, challenges,
-- conditions, limit ranges, lines, flags and queued keys, and over the number of failures; no fuel is
-- used.
--
-- Not modelled are the work queues of client-go, the requests of the leader election, the command
-- lines, and the logging. The names of the events that are recorded stand for their
-- texts, and an error has no text but that of other code. Tests and Reconcile/Tests hold
-- runs of the parts at concrete inputs.
pub mod Common
pub mod Signals
pub mod Start
pub mod Command
pub mod Strings
pub mod Errors
pub mod Kube
pub mod Cert
pub mod Renewal
pub mod Backoff
pub mod Acme
pub mod Effects
pub mod Status
pub mod TemporaryName
pub mod LimitRanges
pub mod Issuer
pub mod Token
pub mod PrivateKey
pub mod Profile
pub mod World
pub mod Exposer
pub mod Reconcile
pub mod SecretSync
pub mod Handlers
pub mod HttpServer
pub mod Informers
pub mod Options
pub mod Flags
pub mod ExposerCommand
pub mod Account
pub mod Workers
pub mod Util
pub mod Tests
