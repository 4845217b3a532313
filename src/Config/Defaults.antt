-- ===== src/Config/Defaults.antt =====
-- What Load adds to the file it reads.
use daigate.Prelude.{Text, [], ◌∷◌, List, codes, some, Option, ok, ◌≡◌, ◌≢◌, refl}
use daigate.Config.{File, or_default, adapters_or_default, with_defaults, load, broker_key_env}

-- Nothing that Load fills in is missing.
pub record IsComplete {Node : Type 0} (f : File Node) : Type 0 where
  pub data_listen : f.serve.data_listen ≢ []
  pub catalog : f.serve.catalog ≢ []
  pub listen : f.admin.listen ≢ []
  pub admin_env : f.admin.tokens.admin_env ≢ []
  pub provision_env : f.admin.tokens.provision_env ≢ []
  pub backend : f.credential.backend ≢ []
  pub broker : f.credential.broker ≢ []
  pub key_env : f.credential.encryption.key_env ≢ []
  pub client_auth : f.ingress.client_auth ≢ []
  pub adapters : f.enabled ≢ []

or_default-ne-nil : (fallback s : Text) → fallback ≢ [] → or_default fallback s ≢ []
or_default-ne-nil fallback [] h = h
or_default-ne-nil fallback (c ∷ s) h = cc

or_default_given : (fallback s : Text) → s ≢ [] → or_default fallback s ≡ s
or_default_given fallback [] h = absurd (h refl)
or_default_given fallback (c ∷ s) h = refl

adapters-ne-nil : (adapters : List Text) → adapters_or_default adapters ≢ []
adapters-ne-nil [] = cc
adapters-ne-nil (a ∷ adapters) = cc

adapters_given : (adapters : List Text) → adapters ≢ [] → adapters_or_default adapters ≡ adapters
adapters_given [] h = absurd (h refl)
adapters_given (a ∷ adapters) h = refl

module _ {Node : Type 0} where
  pub with_defaults-IsComplete : (f : File Node) → IsComplete (with_defaults f)
  unfolding with_defaults codes
  with_defaults-IsComplete f = record {
    data_listen = or_default-ne-nil _ f.serve.data_listen cc;
    catalog = or_default-ne-nil _ f.serve.catalog cc;
    listen = or_default-ne-nil _ f.admin.listen cc;
    admin_env = or_default-ne-nil _ f.admin.tokens.admin_env cc;
    provision_env = or_default-ne-nil _ f.admin.tokens.provision_env cc;
    backend = or_default-ne-nil _ f.credential.backend cc;
    broker = or_default-ne-nil _ f.credential.broker cc;
    key_env = or_default-ne-nil _ f.credential.encryption.key_env cc;
    client_auth = or_default-ne-nil _ f.ingress.client_auth cc;
    adapters = adapters-ne-nil f.enabled;
  }

  pub with_defaults_given : (f : File Node) → IsComplete f → with_defaults f ≡ f
  unfolding with_defaults
  with_defaults_given f h =
      rw
        (
          or_default_given (codes ":9420") f.serve.data_listen h.data_listen,
          or_default_given (codes "providers.yaml") f.serve.catalog h.catalog,
          or_default_given (codes "127.0.0.1:9421") f.admin.listen h.listen,
          or_default_given (codes "DAIGATE_ADMIN_TOKEN") f.admin.tokens.admin_env h.admin_env,
          or_default_given (codes "DAIGATE_PROVISION_TOKEN") f.admin.tokens.provision_env
              h.provision_env,
          or_default_given (codes "sqlite") f.credential.backend h.backend,
          or_default_given (codes "broker.db") f.credential.broker h.broker,
          or_default_given broker_key_env f.credential.encryption.key_env h.key_env,
          or_default_given (codes "keyring") f.ingress.client_auth h.client_auth,
          adapters_given f.enabled h.adapters,
        )
        refl

  -- A file that Load returns lacks nothing that Load fills in, and a file that lacks nothing is
  -- returned as it was decoded.
  pub load-IsComplete :
      (read_file : Text → Option Text) (unmarshal : Text → Option (File Node)) (path raw : Text)
      (decoded : File Node)
      → read_file path ≡ some raw
      → unmarshal raw ≡ some decoded
      → (f : File Node) × (load read_file unmarshal path ≡ ok f)
        × IsComplete f
        × (IsComplete decoded → f ≡ decoded)
  unfolding load
  load-IsComplete read_file unmarshal path raw decoded read parsed = (
    with_defaults decoded,
    rw (load, read, parsed) refl,
    with_defaults-IsComplete decoded,
    with_defaults_given decoded,
  )
