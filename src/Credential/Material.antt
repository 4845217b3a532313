-- ===== src/Credential/Material.antt =====
-- credential/store/types.go: a decrypted upstream credential. A time is a number of nanoseconds
-- since 1970, and `none` is the zero time; times before 1970 are not modelled.
use daigate.Prelude.{Text, Map, ℕ, [], Option, lookup, trim_space}
use daigate.Catalog.Routing.{or_zero}

-- KindAPIKey, KindOAuth, and any other string of the type Kind.
pub data Kind : Type 0 where
  api_key oauth : Kind
  other_kind : Text → Kind

pub record Material : Type 0 where
  pub profile : Text
  pub kind : Kind
  pub api_key : Text
  pub access_token : Text
  pub refresh_token : Text
  pub expires_at : Option ℕ
  pub email : Text
  pub extras : Map Text

-- Material.Extra
unfoldable pub extra : Material → Text → Text
extra m key = trim_space (or_zero [] (lookup key m.extras))
