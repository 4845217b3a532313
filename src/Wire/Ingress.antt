-- ===== src/Wire/Ingress.antt =====
-- The way of a request to the engine: Authenticator.Authenticate (ingress/keyring/keyring.go) and
-- Engine.withAuth (wire/wire.go). The key store's Verify is an argument.
pub mod Gate
pub mod Answered
pub mod Own
use daigate.Prelude.{Text, codes, [], Option, none, some, Result, ok, err}
use daigate.Http.{header_get}
use daigate.Catalog.Document.{Catalog}
use daigate.Keyring.Secret.{TokenError, bearer_token}
use daigate.Keyring.Keys.{Principal, KeyError}
use daigate.Wire.Engine.{Request, Engine, Run, stop, refused, unauthorized, handle_wire}

-- `none` is an error, of which the caller reads no more.
unfoldable pub authenticate : (Text → Result KeyError Principal) → Request → Option Principal
authenticate verify r = elim (bearer_token (header_get r.headers (codes "Authorization"))) [
  | err e ↦ none
  | ok token ↦ elim (verify token) [ err e ↦ none | ok p ↦ some p ]
]

unfoldable pub with_auth :
    (Text → Result KeyError Principal) → Engine → Catalog → Request → Text → Run × Catalog
with_auth verify e cat r wire = elim (authenticate verify r) [
  | none ↦ (stop (refused unauthorized) [], cat)
  | some p ↦ handle_wire e cat r p wire
]
