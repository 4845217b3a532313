-- ===== src/Credential/Policy.antt =====
-- The caps on minting gateway keys (credential/admin/policy.go), from the configuration. A duration
-- is a whole number of nanoseconds; time.ParseDuration is an argument, and `none` its error.
pub mod Caps
use daigate.Prelude.{
  Text, ℕ, ◌*◌, List, [], ◌∷◌, codes, text_eq, is_empty, trim_space, ltb, ℤ, pos, positive,
  if◌then◌else◌, ◌&&◌, ◌||◌, not, Bool, true, false, Option, none, some, Result, ok, err,
}
use daigate.Catalog.Document.{is_nil}
use daigate.Config.{MintPolicyConfig, AdminConfig}

pub record MintPolicy : Type 0 where
  pub max_ttl : ℕ
  pub scopes : List Text
  pub require_allowlist : Bool

pub data PolicyError : Type 0 where
  invalid_ttl : Text → PolicyError
  ttl_not_positive provision_scopes_not_configured scopes_required : PolicyError
  scope_not_allowed : Text → PolicyError

abbrev pub hour : ℕ
hour = 3_600_000_000_000

abbrev pub default_provision_policy : MintPolicy
default_provision_policy = record {
  max_ttl = 24 * hour;
  scopes =
      codes "wire:openai-chat-completions"
      ∷ codes "wire:anthropic-messages"
      ∷ codes "wire:openai-responses"
      ∷ [];
  require_allowlist = true;
}

-- The cap of a positive duration; a cap of 0 is none.
unfoldable pub capped : ℕ → ℕ → ℕ
capped max d = if ltb 0 max && ltb max d then max else d

unfoldable pub parse_ttl : (Text → Option ℤ) → Text → ℕ → ℕ → Result PolicyError ℕ
parse_ttl parse raw fallback max =
    if is_empty (trim_space raw) then ok fallback else elim (parse raw) [
      | none ↦ err (invalid_ttl raw)
      | some d ↦ elim (positive d) [ none ↦ err ttl_not_positive | some n ↦ ok (capped max n) ]
    ]

scope_loop : Text → List Text → Bool
scope_loop scope [] = false
scope_loop scope (a ∷ allowlist) =
    let trimmed = trim_space a in
    let rest = scope_loop scope allowlist in
    if text_eq trimmed (codes "*") || text_eq trimmed scope then true else rest

unfoldable pub scope_allowed : Text → List Text → Bool
unfolding scope_loop
scope_allowed scope allowlist = scope_loop (trim_space scope) allowlist

-- The loop of ResolveScopes: the first scope that is not allowed.
unfoldable pub first_refused : List Text → List Text → Option Text
first_refused [] allowlist = none
first_refused (s ∷ requested) allowlist =
    let rest = first_refused requested allowlist in
    if not (scope_allowed s allowlist) then some s else rest

unfoldable pub resolve_scopes : MintPolicy → List Text → Result PolicyError (List Text)
resolve_scopes p requested =
    if p.require_allowlist
    then if is_nil p.scopes then err provision_scopes_not_configured else ok p.scopes
    else if is_nil p.scopes
    then ok requested
    else if is_nil requested
    then err scopes_required
    else elim (first_refused requested p.scopes) [
      | some s ↦ err (scope_not_allowed s)
      | none ↦ ok requested
    ]

-- What both policies take from their section of the configuration.
unfoldable pub configured : (Text → Option ℤ) → MintPolicyConfig → MintPolicy → MintPolicy
configured parse cfg p =
    let ttl : Option ℕ = elim (if is_empty cfg.max_ttl then none else parse cfg.max_ttl) [
      | none ↦ none
      | some d ↦ positive d
    ] in
    record p {
      max_ttl = elim ttl [ none ↦ p.max_ttl | some n ↦ n ];
      scopes = if is_nil cfg.scopes then p.scopes else cfg.scopes;
    }

unfoldable pub provision_policy_from_config : (Text → Option ℤ) → Option AdminConfig → MintPolicy
provision_policy_from_config parse none = default_provision_policy
provision_policy_from_config parse (some f) = configured parse f.provision default_provision_policy

abbrev pub keys_default : MintPolicy
keys_default = record { max_ttl = 720 * hour; scopes = []; require_allowlist = false }

unfoldable pub keys_policy_from_config : (Text → Option ℤ) → Option AdminConfig → MintPolicy
keys_policy_from_config parse none = keys_default
keys_policy_from_config parse (some f) = configured parse f.keys keys_default
