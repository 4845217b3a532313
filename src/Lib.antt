-- ===== src/Lib.antt =====
-- daigate is a gateway between clients and model providers. A client sends a request with a gateway
-- key to one of the ingress wires; the gateway checks the key and its scopes, looks up the model in the
-- catalog, and relays the request to one of the upstreams of the model, with a credential of its own in
-- place of the client's. This library models the parts that decide: which keys are accepted, which
-- upstreams are tried and in which order, with which credential, what the client receives, how an
-- operator administers keys and credentials, and how an upstream login is made and refreshed.
--
-- The files, by the part of the program:
--   Prelude       Go's strings, maps, results, integers and decimal numbers, and the lemmas on them.
--   Http          the headers of net/http, and internal/limits/.
--   Config        internal/config/: daigate.yaml and the defaults of Load.
--   Catalog       catalog/. Document is the operator's providers.yaml after decoding; Wires has the wire
--                 ids, WireForPath and the modality hint; Routing and Resolve follow
--                 ResolveWithModality with pickModality, surfaceFor, targetFromEntry and pickEntries;
--                 Doctor is Doctor with RegisteredRoutes; Listing is the model list.
--   Keyring       ingress/keyring/ and ingress/argonhash/. Secret has formatSecret and parseKeyID,
--                 Scopes has Authorize and FilterModels, SqlStore and MemoryStore are the two stores.
--   Credential    credential/. Material and Payload are the plaintext of a credential, Seal its
--                 encryption, Store the store in memory and Sqlite the one on SQLite, Inject what is put
--                 on an upstream request, Policy the caps on minting gateway keys, and Oauth the logins
--                 of credential/oauth/: Device and Browser are the flows, Refresh is RefreshProfile,
--                 Vendor the registry of the vendors' modules.
--   Admin         Auth is ingress/adminauth/, the tokens of the administration plane; Server is the HTTP
--                 server of credential/admin/server.go, and Stream its snapshot stream.
--   Upstream      upstream/: Url and Retry are the files of these names, Relay is relay.go.
--   Wire          wire/, adaptersdk/, passthrough/ and compose/. Handler is the engine's mux with the reading of a
--                 request's model and body, Ingress is withAuth, Engine is handleWire with its loop over
--                 the targets, Dispatch the registry and the lookup of handlers, Passthrough the handlers
--                 that relay a request as it is, and Compose the registry of compose/compose.go.
--   Gateway       gateway/gateway.go: track and Shutdown, the draining of the requests in flight.
--   Tests         runs on concrete inputs, and the theorems at such inputs.
--
-- How the parts interact: Wire.Handler.serve passes a request of an ingress path to
-- Wire.Ingress.with_auth, which asks a key store (its Verify is an argument) and passes the principal to
-- Wire.Engine.handle_wire; that calls Keyring.Scopes.authorize, Catalog.Resolve.resolve_with_modality
-- and, for each target, the credential store and the handler that Wire.Dispatch finds. The handlers of
-- Wire.Passthrough build the upstream request with Upstream.Url and Credential.Inject. The
-- administration server works on a key store and a credential store through the records
-- Admin.Server.KeyStore and Admin.Server.CredentialStore, which Admin.Server.Stores fills with the
-- program's stores; its tokens come from Admin.Auth and its caps from Credential.Policy. The refresh of
-- a login uses a credential store through Credential.Oauth.Refresh.RefreshStore.
--
-- Conventions. A string is the list of its code points (Text). A Go map is an association list in the
-- order in which one iteration meets it; what could depend on that order is stated for every order. An
-- error is a value of a data type with one constructor for each message. A mutex makes an operation one
-- step, so a store is passed on explicitly. Clock readings and random bytes are arguments. A time is a
-- number of nanoseconds since 1970. Numbers are natural numbers, with the wrap of an int64 written out
-- where the program can reach it (the round-robin counter, and seconds turned into a duration). Every
-- loop follows a list, but for the polling of the device flow: it runs on fuel and carries the time,
-- which goes on by the interval in each turn, and is shown to end with an answer before the fuel is
-- spent. A handler that panics is a run without an answer.
--
-- Arguments that stand for libraries: argon2 and base64 (Keyring.Argonhash.Crypto), AES-GCM
-- (Credential.Seal.Cipher), encoding/json (Credential.Payload.Json, Credential.Sqlite.Legacy,
-- Credential.Oauth.Decoders, Admin.Server.Codecs, Wire.Engine.Codec), mime, mime/multipart and the path
-- cleaning of net/http (Wire.Handler.Readers), the HTTP client (Wire.Passthrough.Net, and the exchange
-- with an identity provider in Credential.Oauth), net/url (Credential.Oauth.Urls), the yaml decoder, the
-- file system and the environment (Config), io.Copy (Upstream.Relay), time.ParseDuration and
-- unicode.ToLower.
--
-- Not modelled: the reading of the file providers.yaml, the schema migrations of SQLite and the errors of
-- the database itself, the timeouts that upstream.NewClient gives to net/http, logs, spans and metrics,
-- the start of the process with its listeners and signals, and the command line with what it prints.
pub mod Prelude
pub mod Http
pub mod Config
pub mod Catalog
pub mod Keyring
pub mod Credential
pub mod Upstream
pub mod Wire
pub mod Gateway
pub mod Admin
pub mod Tests
