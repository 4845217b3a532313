-- ===== src/Admin/Server.antt =====
-- The HTTP server of the administration plane (credential/admin/server.go). Its two stores are
-- interfaces. encoding/json, time.ParseDuration and the path cleaning of http.ServeMux are arguments,
-- and so are the clock readings and the random bytes of a request. An answer is the value that is
-- encoded as JSON; response headers are left out.
pub mod Stores
pub mod Access
pub mod Provision
pub mod Lifecycle
use daigate.Prelude.{
  Text, ℕ, ◌*◌, ◌^◌, List, [], codes, length, ltb, ◌==◌, is_empty, text_eq, has_prefix, trim_prefix,
  parse_int, ℤ, pos, positive, if◌then◌else◌, ◌&&◌, ◌||◌, not, Bool, Option, none, some, Result, ok,
  err,
}
use daigate.Http.{Header, max_request_body}
use daigate.Keyring.Argonhash.{Crypto}
use daigate.Keyring.Keys.{KeyError, CreateCall, kind_static, kind_issued}
use daigate.Credential.Store.{StoreError, CredentialSummary, SnapshotMeta}
use daigate.Credential.Policy.{
  MintPolicy, PolicyError, hour, default_provision_policy, keys_default, parse_ttl, resolve_scopes,
}
use daigate.Admin.Auth.{AuthRefusal, Middleware, role_provision, require}

-- keyring.KeyStore, without the operations that the server does not call.
pub record KeyStore (K : Type 0) : Type 0 where
  pub create : CreateCall → K → Result KeyError (Text × ℕ) × K
  pub revoke : ℕ → K → Result KeyError Unit × K

-- store.Store, without the operations that the server does not call.
pub record CredentialStore (S : Type 0) : Type 0 where
  pub list_all : S → List CredentialSummary
  pub summary_of : ℕ → S → Result StoreError CredentialSummary
  pub meta : ℕ → S → SnapshotMeta
  pub put_key : Text → Text → Text → ℕ → ℕ → S → Result StoreError ℕ × S

pub record KeyRequest : Type 0 where
  pub name : Text
  pub static : Bool
  pub ttl : Text
  pub scopes : List Text

pub record ImportRequest : Type 0 where
  pub provider : Text
  pub credential : Text

pub record ImportedCredential : Type 0 where
  pub typ : Text
  pub key : Text

-- What the handlers take from the libraries: the JSON bodies, time.ParseDuration and whether a
-- method's path is in the clean form that http.ServeMux serves. The decoder of a key request stops
-- with an error where it would read beyond the limit.
pub record Codecs : Type 0 where
  pub decode_key : ℕ → Text → Option KeyRequest
  pub decode_import : Text → Option ImportRequest
  pub decode_credential : Text → ImportedCredential
  pub parse_duration : Text → Option ℤ
  pub is_clean : Text → Text → Bool

pub record Server (S K : Type 0) : Type 0 where
  pub store : CredentialStore S
  pub key_store : KeyStore K
  pub auth : Middleware
  pub key_policy : MintPolicy
  pub provision_policy : MintPolicy
  pub on_import : Option (Text → Text → S → Result StoreError ℕ × S)

-- The contents of the two stores.
pub record Vault (S K : Type 0) : Type 0 where
  pub credentials : S
  pub keys : K

pub record AdminRequest : Type 0 where
  pub method : Text
  pub path : Text
  pub headers : Header
  pub body : Text
  pub can_flush : Bool

-- Clock readings, in nanoseconds for keys and milliseconds for credentials, and random bytes.
pub record Draw : Type 0 where
  pub now : ℕ
  pub now_expiry : ℕ
  pub now_ms : ℕ
  pub now_bump : ℕ
  pub tail : Text
  pub salt : Text
  pub nonce : Text

pub data AdminRefusal : Type 0 where
  not_served redirected bad_request unsupported_import streaming_unsupported : AdminRefusal
  static_forbidden : AdminRefusal
  denied : AuthRefusal → AdminRefusal
  bad_policy : PolicyError → AdminRefusal
  key_failed key_missing : KeyError → AdminRefusal
  import_failed credential_missing : StoreError → AdminRefusal

pub data Answer : Type 0 where
  refused : AdminRefusal → Answer
  healthy no_content : Answer
  summaries : List CredentialSummary → Answer
  summary_answer : CredentialSummary → Answer
  snapshot_answer snapshot_stream : SnapshotMeta → Answer
  imported : ℕ → Text → Answer
  minted : ℕ → Text → Answer

abbrev pub or_policy : MintPolicy → MintPolicy → MintPolicy
or_policy fallback p = if p.max_ttl == 0 then fallback else p

-- The path's id in base 10; `none` if it is none or not above zero.
unfoldable pub id_after : Text → Text → Option ℕ
id_after prefix path = elim (parse_int (trim_prefix path prefix)) [
  | none ↦ none
  | some n ↦ positive n
]

abbrev pub is_call : AdminRequest → Text → Text → Bool
is_call r path method = text_eq r.path path && text_eq r.method method

abbrev pub is_call_under : AdminRequest → Text → Text → Bool
is_call_under r prefix method = has_prefix r.path prefix && text_eq r.method method

abbrev pub call_with : KeyRequest → Draw → ℕ → List Text → CreateCall
call_with req draw ttl scopes = record {
  name = req.name;
  kind = if req.static then kind_static else kind_issued;
  ttl = pos ttl;
  scopes = scopes;
  now = draw.now;
  now_expiry = draw.now_expiry;
  tail = draw.tail;
  salt = draw.salt;
}

-- The answers to what the stores' operations give.
module _ {S K : Type 0} where
  abbrev pub created : Vault S K → Result KeyError (Text × ℕ) × K → Answer × Vault S K
  created v (err e, keys) = (refused (key_failed e), record v { keys = keys })
  created v (ok (secret, id), keys) = (minted id secret, record v { keys = keys })

  abbrev pub revoked : Vault S K → Result KeyError Unit × K → Answer × Vault S K
  revoked v (err e, keys) = (refused (key_missing e), record v { keys = keys })
  revoked v (ok _, keys) = (no_content, record v { keys = keys })

  abbrev pub stored : Text → Vault S K → Result StoreError ℕ × S → Answer × Vault S K
  stored provider v (err e, s) = (refused (import_failed e), record v { credentials = s })
  stored provider v (ok id, s) = (imported id provider, record v { credentials = s })

module _ (codecs : Codecs) {S K : Type 0} (server : Server S K) where
  unfoldable pub policy_for : Text → MintPolicy
  policy_for role =
      if text_eq role role_provision
      then or_policy default_provision_policy server.provision_policy
      else or_policy keys_default server.key_policy

  unfoldable pub ttl_for : MintPolicy → KeyRequest → Result PolicyError ℕ
  ttl_for policy req =
      if req.static
      then ok 0
      else parse_ttl codecs.parse_duration req.ttl (24 * hour) policy.max_ttl

  -- createKey up to its call of the key store's Create.
  unfoldable pub mint_call : Text → KeyRequest → Draw → Result AdminRefusal CreateCall
  unfolding policy_for ttl_for
  mint_call role req draw =
      if text_eq role role_provision && req.static
      then err static_forbidden
      else elim (ttl_for (policy_for role) req) [
        | err e ↦ err (bad_policy e)
        | ok ttl ↦
            elim (resolve_scopes (policy_for role)
              (if text_eq role role_provision then [] else req.scopes)) [
                | err e ↦ err (bad_policy e)
                | ok scopes ↦ ok (call_with req draw ttl scopes)
              ]
      ]

  unfoldable pub create_key : Text → AdminRequest → Draw → Vault S K → Answer × Vault S K
  unfolding mint_call
  create_key role r draw v = elim (codecs.decode_key max_request_body r.body) [
    | none ↦ (refused bad_request, v)
    | some req ↦ elim (mint_call role req draw) [
      | err e ↦ (refused e, v)
      | ok call ↦ created v (server.key_store.create call v.keys)
    ]
  ]

  unfoldable pub revoke_key : AdminRequest → Vault S K → Answer × Vault S K
  unfolding id_after
  revoke_key r v = elim (id_after (codes "/v1/keys/") r.path) [
    | none ↦ (refused bad_request, v)
    | some id ↦ revoked v (server.key_store.revoke id v.keys)
  ]

  unfoldable pub import_credential : AdminRequest → Draw → Vault S K → Answer × Vault S K
  import_credential r draw v =
      if ltb max_request_body (length r.body)
      then (refused bad_request, v)
      else elim (codecs.decode_import r.body) [
        | none ↦ (refused bad_request, v)
        | some req ↦
            (let cred = codecs.decode_credential req.credential in
              if not (text_eq cred.typ (codes "api_key")) || is_empty cred.key
              then (refused unsupported_import, v)
              else stored req.provider v (elim server.on_import [
                | some run ↦ run req.provider cred.key v.credentials
                | none ↦
                    server.store.put_key req.provider cred.key draw.nonce draw.now_ms draw.now_bump
                      v.credentials
              ]))
      ]

  unfoldable pub get_credential : AdminRequest → Vault S K → Answer
  unfolding id_after
  get_credential r v = elim (id_after (codes "/v1/credentials/") r.path) [
    | none ↦ refused bad_request
    | some id ↦ elim (server.store.summary_of id v.credentials) [
      | err e ↦ refused (credential_missing e)
      | ok cs ↦ summary_answer cs
    ]
  ]

  unfoldable pub route : Text → AdminRequest → Draw → Vault S K → Answer × Vault S K
  unfolding create_key revoke_key import_credential get_credential
  route role r draw v =
      if is_call r (codes "/v1/credentials") (codes "GET")
      then (summaries (server.store.list_all v.credentials), v)
      else if is_call r (codes "/v1/credentials") (codes "POST")
      then import_credential r draw v
      else if is_call_under r (codes "/v1/credentials/") (codes "GET")
      then (get_credential r v, v)
      else if is_call r (codes "/v1/snapshot/stream") (codes "GET")
      then (if r.can_flush
          then (snapshot_stream (server.store.meta draw.now_ms v.credentials), v)
          else (refused streaming_unsupported, v))
      else if is_call r (codes "/v1/snapshot") (codes "GET")
      then (snapshot_answer (server.store.meta draw.now_ms v.credentials), v)
      else if is_call r (codes "/v1/keys") (codes "POST")
      then create_key role r draw v
      else if is_call_under r (codes "/v1/keys/") (codes "DELETE")
      then revoke_key r v
      else (refused not_served, v)

  module _ (crypto : Crypto) where
    -- Handler: the mux, and Require before every path but that of the health check.
    unfoldable pub serve_admin : AdminRequest → Draw → Vault S K → Answer × Vault S K
    unfolding route
    serve_admin r draw v =
        if not (codecs.is_clean r.method r.path) || text_eq r.path (codes "/v1")
        then (refused redirected, v)
        else if text_eq r.path (codes "/v1/healthz")
        then (healthy, v)
        else if has_prefix r.path (codes "/v1/")
        then elim (require crypto server.auth r.headers r.path) [
          | err e ↦ (refused (denied e), v)
          | ok role ↦ route role r draw v
        ]
        else (refused not_served, v)
