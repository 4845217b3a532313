-- ===== src/Tests/Admin.antt =====
-- The administration plane: a provision token mints a key, an administrator revokes it.
use daigate.Prelude.{
  Text, ◌||◌, ℕ, ◌+◌, ◌*◌, ◌≤◌, List, [], ◌∷◌, ◌++◌, codes, text_eq, has_prefix, trim_prefix,
  trim_space, is_empty, lookup, decimal, parse_int, true, false, none, some, ok, err, ◌≡◌, ◌≢◌, ◌⊎◌,
  refl, subst, arith, if◌then◌else◌,
}
use daigate.Http.{Header, header_get, canonical_key}
use daigate.Http.{max_request_body}
use daigate.Keyring.Argonhash.{argon_seal, argon_verify, split_dollar}
use daigate.Keyring.Secret.{format_secret, parse_key_id, bearer_token, cut_dot, id_of}
use daigate.Keyring.Keys.{
  invalid_gateway_key, is_expired, unix_milli, stored_scopes, expiry, CreateCall,
}
use daigate.Keyring.SqlStore.{SqlStore, sql_create, sql_verify, set_hash}
use daigate.Credential.Policy.{
  hour, default_provision_policy, keys_default, provision_policy_from_config, parse_ttl,
  resolve_scopes,
}
use daigate.Credential.Store.{SnapshotMeta}
use daigate.Credential.Sqlite.{Sqlite}
use daigate.Admin.Auth.{Middleware, role_admin, role_provision, bearer, role_for}
use daigate.Admin.Auth.{TokenStore, load_db_tokens, insert_token, load_middleware}
use daigate.Config.{AdminConfig, Getenv, admin_plane_enabled}
use daigate.Admin.Auth.Laws.{env_entries, role_for-insert_token}
use daigate.Admin.Server.{
  Codecs, KeyRequest, Server, Vault, AdminRequest, AdminRefusal, Draw, refused, healthy, minted,
  created, create_key, mint_call, ttl_for, policy_for, serve_admin,
}
use daigate.Admin.Server.Stores.{sql_key_store, sqlite_credentials}
use daigate.Admin.Server.Access.{IsShielded, serve_admin-IsShielded, serve_admin-unknown}
use daigate.Admin.Server.Provision.{IsProvisioned, create_key-IsProvisioned}
use daigate.Admin.Server.Lifecycle.{revocation_path, with_auth-revoked, sql_verify-minted}
use daigate.Admin.Stream.{
  Event, keepalive, poll, Frame, snapshot_frame, stream_from, AreChanges, known_generation,
  polled_generation, stream_from-AreChanges,
}
use daigate.Catalog.Wires.{wire_openai_chat}
use daigate.Wire.Engine.{stop, unauthorized}
use daigate.Wire.Engine as Engine
use daigate.Wire.Ingress.{with_auth}
use daigate.Tests.Keys.{toy, lift, lower, store, secret}
use daigate.Catalog.Routing.{or_zero}
use daigate.Tests.Credentials.{cipher, json, nonce}
use daigate.Tests.Databases.{legacy, database}
use daigate.Tests.Routes.{catalog}
use daigate.Tests.Requests.{engine, request}

abbrev auth : Middleware
auth =
    record { role = role_admin; sealed = argon_seal toy (codes "s") (codes "root") }
    ∷ record { role = role_provision; sealed = argon_seal toy (codes "s") (codes "ci") }
    ∷ []

abbrev codecs : Codecs
codecs = record {
  decode_key = λ limit body.
      some (record { name = codes "ci"; static = false; ttl = []; scopes = codes "model:*" ∷ [] });
  decode_import = λ body. none;
  decode_credential = λ body. record { typ = []; key = [] };
  parse_duration = λ t. none;
  is_clean = λ method path. true;
}

abbrev server : Server Sqlite SqlStore
server = record {
  store = sqlite_credentials cipher legacy json;
  key_store = sql_key_store toy;
  auth = auth;
  key_policy = keys_default;
  provision_policy = default_provision_policy;
  on_import = none;
}

abbrev bearing : Text → Header
bearing token = (codes "Authorization", (codes "Bearer " ++ token) ∷ []) ∷ []

abbrev minting : AdminRequest
minting = record {
  method = codes "POST";
  path = codes "/v1/keys";
  headers = bearing (codes "ci");
  body = codes "{}";
  can_flush = true;
}

abbrev revoking : AdminRequest
revoking = record minting {
  method = codes "DELETE";
  path = revocation_path 1;
  headers = bearing (codes "root");
}

abbrev draw : Draw
draw = record {
  now = 1_000_000_000;
  now_expiry = 1_000_000_000;
  now_ms = 1000;
  now_bump = 1001;
  tail = codes "abc";
  salt = codes "s";
  nonce = nonce;
}

abbrev vault : Vault Sqlite SqlStore
vault = record { credentials = database; keys = record { rows = []; seq = 0 } }

administration : Unit {0}
unfolding codes canonical_key header_get lookup bearer role_for argon_verify argon_seal split_dollar
    text_eq has_prefix trim_prefix trim_space create_key mint_call ttl_for policy_for parse_ttl
    resolve_scopes sql_create expiry format_secret decimal set_hash provision_policy_from_config
    bearer_token parse_key_id parse_int cut_dot id_of
administration = tt

provision_bearer : bearer minting.headers ≡ some (codes "ci")
unfolding administration
provision_bearer = refl

admin_bearer : bearer revoking.headers ≡ some (codes "root")
unfolding administration
admin_bearer = refl

provision_role : role_for toy auth (codes "ci") ≡ some role_provision
unfolding administration lift lower
provision_role = refl

admin_role : role_for toy auth (codes "root") ≡ some role_admin
unfolding administration lift lower
admin_role = refl

serve_admin-IsShielded_example : IsShielded vault (serve_admin codecs server toy minting draw vault)
serve_admin-IsShielded_example =
    serve_admin-IsShielded codecs server toy minting draw vault (codes "ci") provision_bearer
      provision_role

abbrev stranger : AdminRequest
stranger = record minting { headers = bearing (codes "no") }

stranger_unknown : (tok : Text) → bearer stranger.headers ≡ some tok → role_for toy auth tok ≡ none
unfolding administration lift lower
stranger_unknown tok h = subst (λ o. role_for toy auth (or_zero [] o) ≡ none) h refl

serve_admin-unknown_example :
    ((serve_admin codecs server toy stranger draw vault).1 ≡ vault)
    × ((serve_admin codecs server toy stranger draw vault).0 ≢ healthy
        → (e : AdminRefusal) × ((serve_admin codecs server toy stranger draw vault).0 ≡ refused e))
serve_admin-unknown_example =
    serve_admin-unknown codecs server toy stranger draw vault stranger_unknown

default_policy : server.provision_policy ≡ provision_policy_from_config codecs.parse_duration none
unfolding provision_policy_from_config
default_policy = refl

create_key-IsProvisioned_example :
    ((e : AdminRefusal) × (create_key codecs server role_provision minting draw vault
        ≡ (refused e, vault)))
    ⊎ ((req : KeyRequest) × (call : CreateCall) × (codecs.decode_key max_request_body minting.body
          ≡ some req)
        × IsProvisioned server.provision_policy req draw call
        × (create_key codecs server role_provision minting draw vault
            ≡ created vault (server.key_store.create call vault.keys)))
create_key-IsProvisioned_example =
    create_key-IsProvisioned codecs server none minting draw vault default_policy

abbrev vault' : Vault Sqlite SqlStore
vault' = (create_key codecs server role_provision minting draw vault).1

ci_minted :
    create_key codecs server role_provision minting draw vault
    ≡ (minted 1 (format_secret 1 (codes "abc")), vault')
unfolding administration
ci_minted = refl

abc_text : draw.tail ≡ b'a' ∷ codes "bc"
unfolding codes
abc_text = refl

sql_verify-minted_example :
    (req : KeyRequest) × (ttl : ℕ) × (codecs.decode_key max_request_body minting.body ≡ some req)
    × ((ttl ≤ server.provision_policy.max_ttl)
        ⊎ ((is_empty (trim_space req.ttl) ≡ true) × (ttl ≡ 24 * hour)))
    × (sql_verify toy vault'.keys 7 (format_secret 1 (codes "abc")) ≡ (
        if is_expired 7 (some (unix_milli (draw.now_expiry + ttl)))
        then err invalid_gateway_key
        else ok (record {
          id = req.name;
          key_id = 1;
          scopes = stored_scopes server.provision_policy.scopes;
        })))
sql_verify-minted_example =
    sql_verify-minted toy codecs server none minting draw vault vault' 1 b'a' 7
      (format_secret 1 (codes "abc")) (codes "bc") refl default_policy (omega arith) (omega arith)
      abc_text ci_minted

presented_secret : bearer_token (header_get request.headers (codes "Authorization")) ≡ ok secret
unfolding administration
presented_secret = refl

secret_id : parse_key_id secret ≡ some 1
unfolding administration
secret_id = refl

abbrev with_key : Vault Sqlite SqlStore
with_key = record vault { keys = store }

with_auth-revoked_example :
    with_auth
      (sql_verify toy (serve_admin codecs server toy revoking draw with_key).1.keys 0)
      engine
      catalog
      request
      wire_openai_chat
    ≡ (stop (Engine.refused unauthorized) [], catalog)
with_auth-revoked_example =
    with_auth-revoked toy codecs server revoking draw with_key (codes "root") role_admin 1 engine
      catalog request wire_openai_chat 0 secret refl refl refl refl (omega arith) (omega arith)
      admin_bearer admin_role presented_secret secret_id

abbrev at_generation : ℕ → SnapshotMeta
at_generation g = record { generation = g; generated_at = g; server_now_ms = 9 }

abbrev events : List Event
events =
    poll (some (at_generation 1)) true ∷ keepalive true ∷ poll (some (at_generation 3)) true ∷ []

stream_from-AreChanges_example :
    (frames : List Frame) × (stream_from (at_generation 1) true events
      ≡ snapshot_frame (at_generation 1) ∷ frames)
    × AreChanges 1 frames
    × (known_generation 1 frames ≡ polled_generation 1 events)
stream_from-AreChanges_example = stream_from-AreChanges (at_generation 1) events refl

abbrev tokens : TokenStore
tokens = record { rows = []; seq = 0 }

admin_admitted : (text_eq role_admin role_admin || text_eq role_admin role_provision) ≡ true
unfolding text_eq codes
admin_admitted = refl

-- The plane is enabled, and a variable sets the token "root" for administrators.
abbrev plane : AdminConfig
plane = record {
  listen = [];
  enable = some true;
  tokens = record { admin_env = codes "ADMIN"; provision_env = codes "PROVISION" };
  keys = record { max_ttl = []; scopes = [] };
  provision = record { max_ttl = []; scopes = [] };
}

abbrev environment : Getenv
environment name = if text_eq name (codes "ADMIN") then codes "root" else []

plane_enabled : admin_plane_enabled plane ≡ true
unfolding admin_plane_enabled
plane_enabled = refl

role_for-insert_token_example :
    (entries : Middleware) × (load_middleware toy environment plane
        (some (insert_token toy (codes "ops") role_admin (codes "t") (codes "s") 1 tokens).1)
        (codes "s1")
        (codes "s2")
      ≡ ok (some entries))
    × (role_for toy entries (codes "t")
        ≡ some (
            or_zero (or_zero role_admin (role_for toy (load_db_tokens tokens) (codes "t"))) (
              role_for toy
                (env_entries toy environment plane (codes "s1") (codes "s2"))
                (codes "t"))))
role_for-insert_token_example =
    role_for-insert_token toy environment plane (codes "ops") role_admin (codes "t") (codes "s")
      (codes "s1") (codes "s2") 1 tokens plane_enabled admin_admitted
