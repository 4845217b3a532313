-- ===== src/Credential/Oauth/Vendor.antt =====
-- The modules of vendors (credential/oauth/vendor/vendor.go). A module is linked code: its two methods
-- are functions here. The mutex makes each access to the registry one step.
pub mod Sorted
use daigate.Prelude.{
  Text, Map, ℕ, List, [], ◌∷◌, keys, is_empty, lookup, insert, text_le, if◌then◌else◌, not, Option,
  none, some, Result, ok, err,
}
use mathlib.Core.List.{reverse}
use daigate.Config.{Profile}
use daigate.Credential.Material.{Material}
use daigate.Credential.Payload.{merge_extras}
use daigate.Credential.Oauth.{OauthError, empty_access_token, Post, Decoders, refresh_token_for}
use daigate.Credential.Oauth.Browser as Browser
use daigate.Credential.Oauth.Browser.{Surroundings}

pub record Module : Type 0 where
  pub login : Surroundings → Text → Text → Option (Result OauthError Material)
  pub refresh : Text → Material → Result OauthError Material

abbrev pub Modules : Type 0
Modules = Map Module

-- Register
abbrev pub register : Text → Module → Modules → Modules
register provider_id m modules = insert provider_id m modules

-- ForProvider
abbrev pub for_provider : Text → Modules → Option Module
for_provider provider_id modules = lookup provider_id modules

-- MustRegister; `none` as a module is nil, and as a result the panic.
unfoldable pub must_register : Text → Option Module → Modules → Option Modules
must_register provider_id none modules = none
must_register provider_id (some m) modules =
    if is_empty provider_id then none else some (register provider_id m modules)

-- Login; `none` is a device flow out of fuel.
unfoldable pub vendor_login :
    Modules → Surroundings → Text → Profile → Text → Option (Result OauthError Material)
vendor_login modules env profile prof flow = elim (for_provider profile modules) [
  | some m ↦ m.login env profile flow
  | none ↦ Browser.login env profile prof.oauth flow
]

-- LoginOrErr
unfoldable pub login_or_err :
    Modules → Surroundings → Text → Profile → Text → Option (Result OauthError Material)
unfolding vendor_login
login_or_err modules env profile prof flow = elim (vendor_login modules env profile prof flow) [
  | none ↦ none
  | some (err e) ↦ some (err e)
  | some (ok mat) ↦
      if is_empty mat.access_token then some (err (empty_access_token profile)) else some (ok mat)
]

-- Refresh
unfoldable pub vendor_refresh :
    Modules → Decoders → Post → ℕ → Text → Profile → Material → Result OauthError Material
vendor_refresh modules decoders post now profile prof cur = elim (for_provider profile modules) [
  | some m ↦ m.refresh profile cur
  | none ↦ elim (refresh_token_for decoders post now prof.oauth cur.refresh_token) [
    | err e ↦ err e
    | ok mat ↦ ok (record mat {
      profile = profile;
      email = if is_empty mat.email then cur.email else mat.email;
      extras = merge_extras cur.extras mat.extras;
    })
  ]
]

-- The inner loop of sortStrings, from the element at `i` down: what stands before it is given from
-- its end, and so is the result.
unfoldable pub sink : List Text → Text → List Text
sink [] x = x ∷ []
sink (y ∷ before) x = if not (text_le y x) then y ∷ sink before x else x ∷ y ∷ before

-- The outer loop.
unfoldable pub sort_loop : List Text → List Text → List Text
unfolding sink
sort_loop before [] = reverse before
sort_loop before (x ∷ rest) = sort_loop (sink before x) rest

-- OAuthProviders
unfoldable pub oauth_providers : Modules → List Text
unfolding sort_loop
oauth_providers modules = sort_loop [] (keys modules)
