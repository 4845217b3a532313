-- ===== src/Config.antt =====
-- daigate.yaml (internal/config/config.go). The yaml decoder, the file system and the environment
-- are arguments; a node that a driver decodes later is of the argument type `Node`.
pub mod Defaults
use daigate.Prelude.{
  Text, Map, List, [], ◌∷◌, codes, is_empty, text_eq, trim_space, if◌then◌else◌, ◌&&◌, not, Bool,
  true, Option, none, some, Result, ok, err,
}

pub record OAuthProfile : Type 0 where
  pub authorize_url : Text
  pub token_url : Text
  pub device_authorize_url : Text
  pub device_token_url : Text
  pub client_id : Text
  pub scopes : List Text
  pub pkce : Bool

abbrev pub broker_key_env : Text
broker_key_env = codes "DAIGATE_BROKER_KEY"

abbrev pub legacy_broker_key_env : Text
legacy_broker_key_env = codes "DAIGATE_VAULT_KEY"

pub record MintPolicyConfig : Type 0 where
  pub max_ttl : Text
  pub scopes : List Text

pub record Profile : Type 0 where
  pub kind : Text
  pub oauth : OAuthProfile

pub record ServeConfig : Type 0 where
  pub data_listen : Text
  pub catalog : Text

pub record TokensConfig : Type 0 where
  pub admin_env : Text
  pub provision_env : Text

pub record AdminConfig : Type 0 where
  pub listen : Text
  pub enable : Option Bool
  pub tokens : TokensConfig
  pub keys : MintPolicyConfig
  pub provision : MintPolicyConfig

pub record EncryptionConfig : Type 0 where
  pub key_env : Text
  pub key_file : Text

pub record IssuerEntry (Node : Type 0) : Type 0 where
  pub driver : Text
  pub config : Node

pub record CredentialConfig (Node : Type 0) : Type 0 where
  pub backend : Text
  pub broker : Text
  pub encryption : EncryptionConfig
  pub backend_config : Node

pub record IngressConfig (Node : Type 0) : Type 0 where
  pub client_auth : Text
  pub issuers : List (IssuerEntry Node)

-- File; `enabled` is adapters.enable.
pub record File (Node : Type 0) : Type 0 where
  pub serve : ServeConfig
  pub admin : AdminConfig
  pub credential : CredentialConfig Node
  pub ingress : IngressConfig Node
  pub enabled : List Text
  pub credential_profiles : Map Profile

pub data ConfigError : Type 0 where
  unreadable malformed : ConfigError
  broker_key_required admin_token_required provision_token_required : Text → ConfigError

abbrev pub or_default : Text → Text → Text
or_default fallback [] = fallback
or_default fallback (c ∷ s) = c ∷ s

abbrev pub adapters_or_default : List Text → List Text
adapters_or_default [] = codes "passthrough" ∷ []
adapters_or_default (a ∷ adapters) = a ∷ adapters

abbrev pub Getenv : Type 0
Getenv = Text → Text

-- AdminToken
unfoldable pub admin_token : Getenv → AdminConfig → Result ConfigError Text
admin_token getenv admin =
    let v = trim_space (getenv admin.tokens.admin_env) in
    if is_empty v then err (admin_token_required admin.tokens.admin_env) else ok v

-- ProvisionToken
unfoldable pub provision_token : Getenv → AdminConfig → Result ConfigError Text
provision_token getenv admin =
    let v = trim_space (getenv admin.tokens.provision_env) in
    if is_empty v then err (provision_token_required admin.tokens.provision_env) else ok v

-- AdminPlaneEnabled
unfoldable pub admin_plane_enabled : AdminConfig → Bool
admin_plane_enabled admin = elim admin.enable [ none ↦ true | some b ↦ b ]

-- The key's text from the environment.
unfoldable pub env_key : Getenv → Text → Text
env_key getenv name =
    let v = trim_space (getenv name) in
    if is_empty v && text_eq name broker_key_env
    then trim_space (getenv legacy_broker_key_env)
    else v

module _ {Node : Type 0} where
  -- What Load does with the decoded file.
  unfoldable pub with_defaults : File Node → File Node
  with_defaults f = record f {
    serve = record {
      data_listen = or_default (codes ":9420") f.serve.data_listen;
      catalog = or_default (codes "providers.yaml") f.serve.catalog;
    };
    admin = record f.admin {
      listen = or_default (codes "127.0.0.1:9421") f.admin.listen;
      tokens = record {
        admin_env = or_default (codes "DAIGATE_ADMIN_TOKEN") f.admin.tokens.admin_env;
        provision_env = or_default (codes "DAIGATE_PROVISION_TOKEN") f.admin.tokens.provision_env;
      };
    };
    credential = record f.credential {
      backend = or_default (codes "sqlite") f.credential.backend;
      broker = or_default (codes "broker.db") f.credential.broker;
      encryption = record f.credential.encryption {
        key_env = or_default broker_key_env f.credential.encryption.key_env;
      };
    };
    ingress = record f.ingress { client_auth = or_default (codes "keyring") f.ingress.client_auth };
    enabled = adapters_or_default f.enabled;
  }

  unfoldable pub load :
      (Text → Option Text) → (Text → Option (File Node)) → Text → Result ConfigError (File Node)
  unfolding with_defaults
  load read_file unmarshal path = elim (read_file path) [
    | none ↦ err unreadable
    | some raw ↦ elim (unmarshal raw) [ none ↦ err malformed | some f ↦ ok (with_defaults f) ]
  ]

  unfoldable pub broker_key : (Text → Option Text) → Getenv → File Node → Result ConfigError Text
  unfolding env_key
  broker_key read_file getenv f =
      let env_name = f.credential.encryption.key_env in
      let v = env_key getenv env_name in
      if not (is_empty f.credential.encryption.key_file)
      then elim (read_file f.credential.encryption.key_file) [
        | none ↦ err unreadable
        | some raw ↦ ok (trim_space raw)
      ]
      else if is_empty v
      then err (broker_key_required env_name)
      else ok v
