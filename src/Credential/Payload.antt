-- ===== src/Credential/Payload.antt =====
-- The plaintext of a stored credential (credential/store/payload.go). encoding/json on the two
-- payloads is an argument; Go's nil map is the empty map. A time is a number of nanoseconds.
use daigate.Prelude.{
  Text, Map, ℕ, ◌*◌, ◌/◌, List, [], ◌∷◌, codes, is_empty, trim_space, lookup, insert, ℤ, pos,
  positive, if◌then◌else◌, not, Option, none, some, Result, ok, err, ◌≡◌, refl, Option-cases, inl,
  inr, arith, text_eq_iff, lookup-insert,
}
use daigate.Credential.Material.{Kind, api_key, oauth, other_kind, Material}

pub record ApiPayload : Type 0 where
  pub typ : Text
  pub key : Text

pub record OauthPayload : Type 0 where
  pub typ : Text
  pub access : Text
  pub refresh : Text
  pub expires : ℤ
  pub email : Text
  pub extras : Map Text
  pub account : Text
  pub account_camel : Text
  pub project : Text
  pub project_camel : Text

-- json.Marshal and json.Unmarshal on the payloads, with what is used of them: the text of an API
-- key's payload is read back.
pub record Json : Type 0 where
  pub marshal_api : ApiPayload → Text
  pub unmarshal_api : Text → Option ApiPayload
  pub marshal_oauth : OauthPayload → Text
  pub unmarshal_oauth : Text → Option OauthPayload
  pub unmarshal-marshal_api : (p : ApiPayload) → unmarshal_api (marshal_api p) ≡ some p

pub data PayloadError : Type 0 where
  bad_json : PayloadError
  unknown_kind : Text → PayloadError

unfoldable pub first_non_empty : List Text → Text
first_non_empty [] = []
first_non_empty (v ∷ vals) =
    let s = trim_space v in let rest = first_non_empty vals in if not (is_empty s) then s else rest

unfoldable pub set_extra : Text → Text → Map Text → Map Text
set_extra key value m = let s = trim_space value in if is_empty s then m else insert key s m

clone_loop : Map Text → Map Text → Map Text
clone_loop [] out = out
clone_loop ((k, v) ∷ in_) out =
    let s = trim_space v in clone_loop in_ (if not (is_empty s) then insert k s out else out)

unfoldable pub clone_extras : Map Text → Map Text
unfolding clone_loop
clone_extras in_ = clone_loop in_ []

-- A legacy value where the extras have none.
unfoldable pub add_legacy : Text → List Text → Map Text → Map Text
unfolding set_extra first_non_empty
add_legacy key legacy out = elim (lookup key out) [
  | some v ↦ out
  | none ↦
      (let id = first_non_empty legacy in if not (is_empty id) then set_extra key id out else out)
]

unfoldable pub merge_oauth_extras : OauthPayload → Map Text
unfolding add_legacy clone_extras
merge_oauth_extras p =
    add_legacy (codes "project_id") (p.project ∷ p.project_camel ∷ [])
      (add_legacy (codes "account_id") (p.account ∷ p.account_camel ∷ []) (clone_extras p.extras))

merge_loop : Map Text → Map Text → Map Text
merge_loop [] out = out
merge_loop ((k, v) ∷ cur) out =
    merge_loop cur (elim (lookup k out) [ some w ↦ out | none ↦ insert k v out ])

unfoldable pub merge_extras : Map Text → Map Text → Map Text
unfolding merge_loop clone_extras
merge_extras [] refreshed = refreshed
merge_extras (e ∷ cur) refreshed = merge_loop (e ∷ cur) (clone_extras refreshed)

lookup-merge_loop :
    (cur out : Map Text) (key : Text)
    → lookup key (merge_loop cur out)
      ≡ (elim (lookup key out) [ some w ↦ some w | none ↦ lookup key cur ])
unfolding merge_loop lookup
lookup-merge_loop [] out key = elim (Option-cases (lookup key out)) [
  | inl missing ↦ ground (arith, missing)
  | inr (w, found) ↦ ground (arith, found)
]
lookup-merge_loop ((k, v) ∷ cur) out key = elim (Option-cases (lookup k out)) [
  | inr (w, found) ↦ ground (arith, found, text_eq_iff k key, lookup-merge_loop cur out key)
  | inl missing ↦ ground (
    arith,
    missing,
    text_eq_iff k key,
    lookup-merge_loop cur (insert k v out) key,
    lookup-insert k key v out,
  )
]

-- A refresh that brings no extras keeps the current ones.
pub lookup-merge_extras :
    (cur : Map Text) (key : Text) → lookup key (merge_extras cur []) ≡ lookup key cur
unfolding merge_extras clone_extras lookup
lookup-merge_extras [] key = refl
lookup-merge_extras (e ∷ cur) key = lookup-merge_loop (e ∷ cur) [] key

abbrev pub api_key_payload : Text → ApiPayload
api_key_payload key = record { typ = codes "api_key"; key = key }

abbrev pub milli_of : Option ℕ → ℤ
milli_of none = pos 0
milli_of (some ns) = pos (ns / 1_000_000)

abbrev pub time_of : Option ℕ → Option ℕ
time_of none = none
time_of (some ms) = some (ms * 1_000_000)

unfoldable pub oauth_material_payload : Material → OauthPayload
oauth_material_payload mat = record {
  typ = codes "oauth";
  access = mat.access_token;
  refresh = mat.refresh_token;
  expires = milli_of mat.expires_at;
  email = mat.email;
  extras = mat.extras;
  account = [];
  account_camel = [];
  project = [];
  project_camel = [];
}

abbrev pub empty_material : Text → Kind → Material
empty_material profile kind = record {
  profile = profile;
  kind = kind;
  api_key = [];
  access_token = [];
  refresh_token = [];
  expires_at = none;
  email = [];
  extras = [];
}

unfoldable pub oauth_material : Text → OauthPayload → Material
unfolding merge_oauth_extras
oauth_material profile p = record (empty_material profile oauth) {
  access_token = p.access;
  refresh_token = p.refresh;
  expires_at = time_of (positive p.expires);
  email = p.email;
  extras = merge_oauth_extras p;
}

unfoldable pub material_from_decrypted : Json → Text → Kind → Text → Result PayloadError Material
unfolding oauth_material
material_from_decrypted json profile api_key raw = elim (json.unmarshal_api raw) [
  | none ↦ err bad_json
  | some p ↦ ok (record (empty_material profile api_key) { api_key = p.key })
]
material_from_decrypted json profile oauth raw = elim (json.unmarshal_oauth raw) [
  | none ↦ err bad_json
  | some p ↦ ok (oauth_material profile p)
]
material_from_decrypted json profile (other_kind k) raw = err (unknown_kind k)
