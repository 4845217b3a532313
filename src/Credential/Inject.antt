-- ===== src/Credential/Inject.antt =====
-- The upstream credential on an outgoing request (credential/inject/): the client's own credentials
-- are taken off, and the material is put on as the route says. Of a request only the headers are
-- touched, so a request is its headers here; the result of each function holds them on errors too.
pub mod Isolation
use daigate.Prelude.{
  Text, Map, ℕ, List, [], ◌∷◌, ◌++◌, codes, map, text_eq, is_empty, trim_space, contains,
  replace_all, lookup, insert, delete, if◌then◌else◌, ◌&&◌, ◌||◌, not, Bool, true, false, Option,
  none, some, Result, ok, err, ◌>>=◌,
}
use daigate.Http.{Header, header_add, header_set, header_del}
use daigate.Catalog.Document.{is_nil}
use daigate.Credential.Material.{Kind, api_key, oauth, other_kind, Material, extra}

-- unicode.ToLower
abbrev pub Lower : Type 0
Lower = ℕ → ℕ

pub data InjectError : Type 0 where
  missing_key missing_access missing_account missing_project : InjectError
  unsupported_placeholder : Text → InjectError
  empty_value : Text → InjectError
  in_header : Text → InjectError → InjectError
  unknown_preset_api_key unknown_preset_oauth : Text → InjectError
  no_api_key_preset_for_oauth : InjectError

-- Route, and AdapterDefault, which has the same fields.
pub record Route : Type 0 where
  pub spec : Map Text
  pub preset : Text

abbrev pub authorization : Text
authorization = codes "Authorization"

abbrev pub x_api_key : Text
x_api_key = codes "x-api-key"

add_all : Text → List Text → Header → Header
add_all k [] dst = dst
add_all k (v ∷ vals) dst = add_all k vals (header_add k v dst)

unfoldable pub copy_headers : Header → Header → Header
unfolding add_all
copy_headers dst [] = dst
copy_headers dst ((k, vals) ∷ src) = copy_headers (add_all k vals dst) src

unfoldable pub strip_client : Header → Header
strip_client h = header_del (codes "X-Api-Key") (header_del x_api_key (header_del authorization h))

abbrev pub set_bearer : Text → Header → Header
set_bearer token h = header_set authorization (codes "Bearer " ++ token) h

unfoldable pub substitute_one : Text → Text → InjectError → Text → Result InjectError Text
substitute_one placeholder value missing out =
    if not (contains out placeholder)
    then ok out
    else if is_empty value
    then err missing
    else ok (replace_all out placeholder value)

-- What materialValues returns.
pub record Values : Type 0 where
  pub key : Text
  pub access : Text
  pub account_id : Text
  pub project_id : Text

abbrev no_values : Values
no_values = record { key = []; access = []; account_id = []; project_id = [] }

unfoldable pub material_values : Material → Values
material_values m = elim m.kind [
  | api_key ↦ record no_values { key = trim_space m.api_key }
  | oauth ↦ record no_values {
    access = trim_space m.access_token;
    account_id = extra m (codes "account_id");
    project_id = extra m (codes "project_id");
  }
  | other_kind k ↦ no_values
]

abbrev closed : Text → Text → Result InjectError Text
closed tmpl out = if contains out (codes "${") then err (unsupported_placeholder tmpl) else ok out

unfoldable pub substitute : Text → Values → Result InjectError Text
substitute tmpl v =
    substitute_one (codes "${key}") v.key missing_key tmpl
    >>= substitute_one (codes "${access}") v.access missing_access
    >>= substitute_one (codes "${accountId}") v.account_id missing_account
    >>= substitute_one (codes "${projectId}") v.project_id missing_project
    >>= closed tmpl

module _ (lower : Lower) where
  -- strings.ToLower
  abbrev pub to_lower : Text → Text
  to_lower s = map lower s

  unfoldable pub canonical_header : Text → Text
  canonical_header name =
      let lowered = to_lower (trim_space name) in
      if text_eq lowered (codes "authorization")
      then authorization
      else if text_eq lowered x_api_key
      then codes "X-Api-Key"
      else lowered

  -- One turn of the loop of ApplySpec.
  unfoldable pub apply_header : Material → Text → Text → Header → Result InjectError Header
  unfolding canonical_header
  apply_header m name tmpl h = elim (substitute tmpl (material_values m)) [
    | err e ↦ err (in_header name e)
    | ok val ↦
        if is_empty val
        then err (empty_value name)
        else ok (header_set (canonical_header name) val h)
  ]

  unfoldable pub apply_spec : Material → Map Text → Header → Result InjectError Unit × Header
  apply_spec m [] h = (ok tt, h)
  apply_spec m ((name, tmpl) ∷ spec) h = elim (apply_header m name tmpl h) [
    | err e ↦ (err e, h)
    | ok h' ↦ apply_spec m spec h'
  ]

  unfoldable pub apply_catalog_preset : Material → Text → Header → Result InjectError Unit × Header
  apply_catalog_preset m preset h =
      let p = to_lower (trim_space preset) in
      elim m.kind [
        | api_key ↦
            (let key = trim_space m.api_key in
              if is_empty p || text_eq p (codes "bearer")
              then (ok tt, set_bearer key h)
              else if text_eq p x_api_key
              then (ok tt, header_set x_api_key key h)
              else (err (unknown_preset_api_key p), h))
        | oauth ↦
            if is_empty p || text_eq p (codes "bearer")
            then (ok tt, set_bearer (trim_space m.access_token) h)
            else if text_eq p x_api_key
            then (err no_api_key_preset_for_oauth, h)
            else (err (unknown_preset_oauth p), h)
        | other_kind k ↦ (ok tt, h)
      ]

  -- The choice of ApplyRoute once the client's credentials are off.
  unfoldable pub apply_chosen : Material → Header → Route → Route → Result InjectError Unit × Header
  apply_chosen m h route adapter_default =
      let preset = trim_space route.preset in
      if not (is_nil route.spec)
      then apply_spec m route.spec h
      else if not (is_empty preset)
      then apply_catalog_preset m preset h
      else if not (is_nil adapter_default.spec)
      then apply_spec m adapter_default.spec h
      else apply_catalog_preset m adapter_default.preset h

  unfoldable pub apply_route : Material → Header → Route → Route → Result InjectError Unit × Header
  unfolding strip_client
  apply_route m h route adapter_default = apply_chosen m (strip_client h) route adapter_default

  -- The process-wide registry of oauth presets; a preset is linked code that shapes headers.
  unfoldable pub register_oauth_preset :
      Text → Option (Header → Header) → Map (Header → Header) → Map (Header → Header)
  register_oauth_preset name none presets = presets
  register_oauth_preset name (some fn) presets =
      let key = to_lower (trim_space name) in
      if is_empty key then presets else insert key fn presets

  unfoldable pub apply_api_key : Text → Text → Header → Header
  apply_api_key key preset h =
      let p = to_lower (trim_space preset) in
      if is_empty p || text_eq p (codes "bearer")
      then set_bearer (trim_space key) h
      else if text_eq p x_api_key
      then header_set x_api_key (trim_space key) h
      else set_bearer (trim_space key) h

  unfoldable pub apply_oauth_preset : Map (Header → Header) → Text → Header → Header
  apply_oauth_preset presets preset h =
      if is_empty preset then h else elim (lookup preset presets) [ none ↦ h | some fn ↦ fn h ]

  unfoldable pub apply_preset : Map (Header → Header) → Material → Text → Header → Header
  unfolding apply_api_key apply_oauth_preset
  apply_preset presets m preset h =
      let p = to_lower (trim_space preset) in
      elim m.kind [
        | api_key ↦ apply_api_key m.api_key p h
        | oauth ↦ apply_oauth_preset presets p (set_bearer (trim_space m.access_token) h)
        | other_kind k ↦ h
      ]

  -- Apply
  unfoldable pub apply : Map (Header → Header) → Material → Text → Header → Header
  unfolding apply_preset strip_client
  apply presets m preset h = apply_preset presets m preset (strip_client h)
