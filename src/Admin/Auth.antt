-- ===== src/Admin/Auth.antt =====
-- The bearer tokens of the administration plane (ingress/adminauth/adminauth.go). The salt of each
-- seal and the environment are arguments. Reading the table of tokens does not fail.
pub mod Laws
use daigate.Prelude.{
  Text, ℕ, ◌+◌, List, [], ◌∷◌, ◌++◌, codes, map, any, is_empty, text_eq, has_prefix, trim_prefix,
  trim_space, if◌then◌else◌, ◌&&◌, ◌||◌, not, Bool, true, false, Option, none, some, Result, ok,
  err,
}
use daigate.Http.{Header, header_get}
use daigate.Config.{AdminConfig, Getenv, admin_plane_enabled}
use daigate.Keyring.Argonhash.{Crypto, argon_seal, argon_verify}
use daigate.Catalog.Document.{is_nil}

abbrev pub role_admin : Text
role_admin = codes "admin"

abbrev pub role_provision : Text
role_provision = codes "provision"

-- provisionDeny
abbrev pub provision_deny : List Text
provision_deny = codes "/v1/credentials" ∷ codes "/v1/snapshot" ∷ []

-- tokenEntry
pub record TokenEntry : Type 0 where
  pub role : Text
  pub sealed : Text

-- The Middleware's entries.
abbrev pub Middleware : Type 0
Middleware = List TokenEntry

-- A row of the table admin_tokens.
pub record TokenRow : Type 0 where
  pub id : ℕ
  pub name : Text
  pub role : Text
  pub hash : Text
  pub created_at : ℕ

pub record TokenStore : Type 0 where
  pub rows : List TokenRow
  pub seq : ℕ

pub data AuthError : Type 0 where
  token_required : AuthError
  token_unset : Text → Text → AuthError
  role_check_failed : AuthError

pub data AuthRefusal : Type 0 where
  unauthorized forbidden : AuthRefusal

-- One turn of the loop of loadDBTokens.
abbrev pub row_entry : TokenRow → TokenEntry
row_entry r = record { role = r.role; sealed = r.hash }

-- loadDBTokens
unfoldable pub load_db_tokens : TokenStore → Middleware
load_db_tokens s = map row_entry s.rows

-- bearer; `none` is its error.
unfoldable pub bearer : Header → Option Text
bearer headers =
    let h = header_get headers (codes "Authorization") in
    if not (has_prefix h (codes "Bearer "))
    then none
    else some (trim_space (trim_prefix h (codes "Bearer ")))

-- The loop over provisionDeny, which has one result in any order of its entries.
unfoldable pub is_denied : Text → Bool
is_denied path = any (has_prefix path) provision_deny

module _ (crypto : Crypto) where
  -- The entry of a token that is set.
  unfoldable pub entry_of : Text → Text → Text → Middleware
  entry_of role token salt =
      if not (is_empty token)
      then record { role = role; sealed = argon_seal crypto salt token } ∷ []
      else []

  -- NewFromPlain
  unfoldable pub new_from_plain : Text → Text → Text → Text → Result AuthError Middleware
  unfolding entry_of
  new_from_plain admin provision salt salt' =
      let entries = entry_of role_admin admin salt ++ entry_of role_provision provision salt' in
      if is_nil entries then err token_required else ok entries

  -- Load; `none` as its result is a disabled plane.
  unfoldable pub load_middleware :
      Getenv → AdminConfig → Option TokenStore → Text → Text → Result AuthError (Option Middleware)
  unfolding entry_of load_db_tokens
  load_middleware getenv admin db salt salt' =
      let stored : Middleware = elim db [ none ↦ [] | some s ↦ load_db_tokens s ] in
      let entries =
        entry_of role_admin (trim_space (getenv admin.tokens.admin_env)) salt
        ++ (entry_of role_provision (trim_space (getenv admin.tokens.provision_env)) salt'
            ++ stored) in
      if not (admin_plane_enabled admin)
      then ok none
      else if is_nil entries
      then err (token_unset admin.tokens.admin_env admin.tokens.provision_env)
      else ok (some entries)

  -- roleFor
  unfoldable pub role_for : Middleware → Text → Option Text
  role_for [] tok = none
  role_for (e ∷ entries) tok =
      let rest = role_for entries tok in
      if argon_verify crypto tok e.sealed then some e.role else rest

  -- Require: the role that the next handler finds in its context.
  unfoldable pub require : Middleware → Header → Text → Result AuthRefusal Text
  unfolding is_denied
  require entries headers path = elim (bearer headers) [
    | none ↦ err unauthorized
    | some tok ↦ elim (role_for entries tok) [
      | none ↦ err unauthorized
      | some role ↦ if text_eq role role_provision && is_denied path then err forbidden else ok role
    ]
  ]

  -- SQLTokenStore.Insert, under the table's CHECK on the role.
  unfoldable pub insert_token :
      Text → Text → Text → Text → ℕ → TokenStore → Result AuthError Unit × TokenStore
  insert_token name role plain salt now s =
      if text_eq role role_admin || text_eq role role_provision
      then (let row : TokenRow = record {
        id = s.seq + 1;
        name = name;
        role = role;
        hash = argon_seal crypto salt plain;
        created_at = now;
      } in
          (ok tt, record { rows = s.rows ++ row ∷ []; seq = s.seq + 1 }))
      else (err role_check_failed, s)
