-- ===== src/Credential/Store.antt =====
-- The credential store in memory (credential/store/memory.go). The mutex makes each operation one
-- step; the clock reading and the nonce of the encryption are arguments. The rows stand in the
-- order of their insertion; the order in which Go iterates over them is an argument where it shows.
pub mod Laws
pub mod Readback
pub mod History
use daigate.Prelude.{
  Text, Map, ℕ, ◌+◌, List, [], ◌∷◌, ◌++◌, codes, map, is_empty, text_eq, ◌==◌, lookup, insert,
  if◌then◌else◌, not, Bool, true, false, Option, none, some, Result, ok, err,
}
use daigate.Credential.Material.{Kind, api_key, oauth, other_kind, Material}
use daigate.Credential.Seal.{Cipher, SealError, encrypt, decrypt}
use daigate.Credential.Payload.{
  Json, PayloadError, api_key_payload, oauth_material_payload, material_from_decrypted,
}

pub record CredentialRow : Type 0 where
  pub id : ℕ
  pub profile : Text
  pub kind : Kind
  pub identity : Text
  pub disabled_cause : Text
  pub created_at : ℕ
  pub updated_at : ℕ
  pub data_enc : Text

-- `rows` and `by_prof` are Go's maps from ids to rows and from profiles to ids.
pub record Memory : Type 0 where
  pub key : Text
  pub rows : List CredentialRow
  pub by_prof : Map ℕ
  pub next_id : ℕ
  pub gen : ℕ
  pub gen_at : ℕ

-- The errors; `nil_dereference` is the panic of a profile whose row is missing.
pub data StoreError : Type 0 where
  profile_not_found oauth_profile_not_found not_oauth : Text → StoreError
  disabled : ℕ → Text → StoreError
  not_found : ℕ → StoreError
  not_sealed : SealError → StoreError
  bad_payload : PayloadError → StoreError
  nil_dereference : StoreError

pub record CredentialSummary : Type 0 where
  pub id : ℕ
  pub profile : Text
  pub kind : Kind
  pub status : Text
  pub identity_key : Option Text
  pub disabled_cause : Option Text
  pub created_at : ℕ
  pub updated_at : ℕ

pub record SnapshotMeta : Type 0 where
  pub generation : ℕ
  pub generated_at : ℕ
  pub server_now_ms : ℕ

unfoldable pub new_memory : Text → ℕ → Memory
new_memory key now = record {
  key = key;
  rows = [];
  by_prof = [];
  next_id = 0;
  gen = 1;
  gen_at = now;
}

-- m.rows[id]
unfoldable pub row_at : ℕ → List CredentialRow → Option CredentialRow
row_at id [] = none
row_at id (r ∷ rs) = let rest = row_at id rs in if r.id == id then some r else rest

-- A change of the row that m.rows[id] points to.
unfoldable pub change_row :
    ℕ → (CredentialRow → CredentialRow) → List CredentialRow → List CredentialRow
change_row id f [] = []
change_row id f (r ∷ rs) =
    let rest = change_row id f rs in if r.id == id then f r ∷ rs else r ∷ rest

-- m.gen++ and m.genAt = now
abbrev pub bumped : ℕ → Memory → Memory
bumped now m = record m { gen = m.gen + 1; gen_at = now }

unfoldable pub bump_generation : ℕ → Memory → Memory
bump_generation now m = bumped now m

unfoldable pub snapshot_meta : ℕ → Memory → SnapshotMeta
snapshot_meta now m = record { generation = m.gen; generated_at = m.gen_at; server_now_ms = now }

abbrev pub non_empty : Text → Option Text
non_empty t = if not (is_empty t) then some t else none

unfoldable pub summary : CredentialRow → CredentialSummary
summary r = record {
  id = r.id;
  profile = r.profile;
  kind = r.kind;
  status = if not (is_empty r.disabled_cause) then codes "disabled" else codes "active";
  identity_key = non_empty r.identity;
  disabled_cause = non_empty r.disabled_cause;
  created_at = r.created_at;
  updated_at = r.updated_at;
}

-- `order` is the order in which one iteration of Go's map meets the rows.
unfoldable pub list_summaries :
    (List CredentialRow → List CredentialRow) → Memory → List CredentialSummary
list_summaries order m = map summary (order m.rows)

unfoldable pub get_summary : ℕ → Memory → Result StoreError CredentialSummary
get_summary id m = elim (row_at id m.rows) [ none ↦ err (not_found id) | some r ↦ ok (summary r) ]

unfoldable pub disable : ℕ → Text → ℕ → Memory → Result StoreError Unit × Memory
disable id cause now m = elim (row_at id m.rows) [
  | none ↦ (err (not_found id), m)
  | some r ↦
      (let change : CredentialRow → CredentialRow =
          (λ x. record x { disabled_cause = cause; updated_at = now }) in
        (ok tt, bumped now (record m { rows = change_row id change m.rows })))
]

-- The row of a new credential, under the next id, becomes the profile's.
unfoldable pub put_row : CredentialRow → ℕ → Memory → Memory
put_row row now m = bumped now (record m {
  rows = m.rows ++ row ∷ [];
  by_prof = insert row.profile row.id m.by_prof;
  next_id = row.id;
})

-- The fields that UpdateOAuth writes.
unfoldable pub refreshed : Material → Text → ℕ → CredentialRow → CredentialRow
refreshed mat enc now r = record r {
  data_enc = enc;
  updated_at = now;
  identity = if not (is_empty mat.email) then mat.email else r.identity;
  disabled_cause = [];
}

abbrev pub is_oauth : Kind → Bool
is_oauth api_key = false
is_oauth oauth = true
is_oauth (other_kind k) = false

module _ (c : Cipher) (json : Json) where
  unfoldable pub decrypt_row : Text → CredentialRow → Result StoreError Material
  decrypt_row key r = elim (decrypt c key r.data_enc) [
    | err e ↦ err (not_sealed e)
    | ok raw ↦ elim (material_from_decrypted json r.profile r.kind raw) [
      | err e ↦ err (bad_payload e)
      | ok mat ↦ ok mat
    ]
  ]

  -- Get once the profile has an id.
  unfoldable pub get_row : Text → ℕ → Option CredentialRow → Result StoreError Material
  get_row key id none = err nil_dereference
  get_row key id (some r) =
      if not (is_empty r.disabled_cause)
      then err (disabled id r.disabled_cause)
      else decrypt_row key r

  unfoldable pub get : Text → Memory → Result StoreError Material
  get profile m = elim (lookup profile m.by_prof) [
    | none ↦ err (profile_not_found profile)
    | some id ↦ get_row m.key id (row_at id m.rows)
  ]

  -- PutAPIKey and PutOAuth past the building of the payload's text.
  unfoldable pub put : Text → Kind → Text → Text → Text → ℕ → Memory → Result StoreError ℕ × Memory
  put profile kind identity plain nonce now m = elim (encrypt c m.key nonce plain) [
    | err e ↦ (err (not_sealed e), m)
    | ok enc ↦
        (let id = m.next_id + 1 in
          let row : CredentialRow = record {
            id = id;
            profile = profile;
            kind = kind;
            identity = identity;
            disabled_cause = [];
            created_at = now;
            updated_at = now;
            data_enc = enc;
          } in
          (ok id, put_row row now m))
  ]

  unfoldable pub put_api_key : Text → Text → Text → ℕ → Memory → Result StoreError ℕ × Memory
  put_api_key profile key nonce now m =
      put profile api_key [] (json.marshal_api (api_key_payload key)) nonce now m

  unfoldable pub put_oauth : Text → Material → Text → ℕ → Memory → Result StoreError ℕ × Memory
  put_oauth profile mat nonce now m =
      put profile oauth mat.email (json.marshal_oauth (oauth_material_payload mat)) nonce now m

  unfoldable pub update_row :
      Text
      → Material
      → Text
      → ℕ
      → ℕ
      → Option CredentialRow
      → Memory
      → Result StoreError Unit × Memory
  update_row profile mat nonce now id none m = (err nil_dereference, m)
  update_row profile mat nonce now id (some r) m =
      if not (is_oauth r.kind)
      then (err (not_oauth profile), m)
      else elim (encrypt c m.key nonce (json.marshal_oauth (oauth_material_payload mat))) [
        | err e ↦ (err (not_sealed e), m)
        | ok enc ↦
            (ok tt, bumped now (record m { rows = change_row id (refreshed mat enc now) m.rows }))
      ]

  unfoldable pub update_oauth :
      Text → Material → Text → ℕ → Memory → Result StoreError Unit × Memory
  update_oauth profile mat nonce now m = elim (lookup profile m.by_prof) [
    | none ↦ (err (oauth_profile_not_found profile), m)
    | some id ↦ update_row profile mat nonce now id (row_at id m.rows) m
  ]
