-- ===== src/Credential/Sqlite.antt =====
-- The credential store on SQLite (credential/store/sqlite.go): the table credentials and the row of
-- snapshot_meta. A statement does what SQLite does with it; an error of the database itself is not
-- modelled, and the CHECK on the kind always holds.
pub mod View
pub mod Rows
pub mod Refinement
pub mod Runs
pub mod History
use daigate.Prelude.{
  Text, ℕ, ◌+◌, List, [], ◌∷◌, ◌++◌, codes, map, is_empty, text_eq, ◌==◌, any, if◌then◌else◌, ◌&&◌,
  ◌||◌, not, Bool, true, false, Option, none, some, Result, ok, err, ◌≡◌, ◌>>=◌,
}
use daigate.Catalog.Routing.{or_zero}
use daigate.Credential.Material.{Kind, api_key, oauth, other_kind, Material}
use daigate.Credential.Seal.{Cipher, Envelope, encrypt, decrypt}
use daigate.Credential.Payload.{
  Json, api_key_payload, oauth_material_payload, material_from_decrypted,
}
use daigate.Credential.Store.{
  StoreError, profile_not_found, oauth_profile_not_found, disabled, not_found, not_sealed,
  bad_payload, CredentialSummary, SnapshotMeta, is_oauth,
}

pub record SqliteRow : Type 0 where
  pub id : ℕ
  pub provider : Text
  pub kind : Kind
  pub blob : Text
  pub identity_key : Option Text
  pub disabled_cause : Option Text
  pub created_at : ℕ
  pub updated_at : ℕ

-- The rows in the order of their ids, the AUTOINCREMENT sequence, and the snapshot row.
pub record Sqlite : Type 0 where
  pub key : Text
  pub rows : List SqliteRow
  pub seq : ℕ
  pub generation : ℕ
  pub generated_at : ℕ

-- json.Unmarshal into the struct with the one field "type"; `none` is its error. An envelope has no
-- such field, which leaves it empty.
pub record Legacy (c : Cipher) : Type 0 where
  pub type_of : Text → Option Text
  pub type_of-marshal : (e : Envelope) → type_of (c.marshal e) ≡ some []

-- The store of a new database file.
abbrev pub new_sqlite : Text → ℕ → Sqlite
new_sqlite key now = record { key = key; rows = []; seq = 0; generation = 1; generated_at = now }

-- SELECT … WHERE … ORDER BY id DESC LIMIT 1
unfoldable pub last_row : (SqliteRow → Bool) → List SqliteRow → Option SqliteRow
last_row p [] = none
last_row p (r ∷ rs) = elim (last_row p rs) [ some x ↦ some x | none ↦ if p r then some r else none ]

-- UPDATE … WHERE id = ?
unfoldable pub update_where : ℕ → (SqliteRow → SqliteRow) → List SqliteRow → List SqliteRow
update_where id f [] = []
update_where id f (r ∷ rs) = (if r.id == id then f r else r) ∷ update_where id f rs

unfoldable pub sqlite_bump_generation : ℕ → Sqlite → Sqlite
sqlite_bump_generation now s = record s { generation = s.generation + 1; generated_at = now }

unfoldable pub sqlite_snapshot_meta : ℕ → Sqlite → SnapshotMeta
sqlite_snapshot_meta now s = record {
  generation = s.generation;
  generated_at = s.generated_at;
  server_now_ms = now;
}

-- The part of a nullable text that is valid and not empty.
abbrev pub valid_text : Option Text → Option Text
valid_text none = none
valid_text (some t) = if not (is_empty t) then some t else none

-- One turn of the loop of scanSummary.
unfoldable pub scan_summary : SqliteRow → CredentialSummary
scan_summary r = record {
  id = r.id;
  profile = r.provider;
  kind = r.kind;
  status = elim (valid_text r.disabled_cause) [
    | none ↦ codes "active"
    | some cause ↦ codes "disabled"
  ];
  identity_key = valid_text r.identity_key;
  disabled_cause = valid_text r.disabled_cause;
  created_at = r.created_at;
  updated_at = r.updated_at;
}

unfoldable pub sqlite_list_summaries : Sqlite → List CredentialSummary
sqlite_list_summaries s = map scan_summary s.rows

-- SELECT … WHERE id = ?
unfoldable pub rows_of_id : ℕ → List SqliteRow → List SqliteRow
rows_of_id id [] = []
rows_of_id id (r ∷ rs) = let rest = rows_of_id id rs in if r.id == id then r ∷ rest else rest

unfoldable pub sqlite_get_summary : ℕ → Sqlite → Result StoreError CredentialSummary
sqlite_get_summary id s = elim (rows_of_id id s.rows) [
  | [] ↦ err (not_found id)
  | r ∷ rs ↦ ok (scan_summary r)
]

abbrev pub has_id : ℕ → SqliteRow → Bool
has_id id r = r.id == id

-- `now` is written to the row; BumpGeneration reads the clock again, which gives `later`.
unfoldable pub sqlite_disable : ℕ → Text → ℕ → ℕ → Sqlite → Result StoreError Unit × Sqlite
unfolding sqlite_bump_generation
sqlite_disable id cause now later s =
    let change : SqliteRow → SqliteRow =
      (λ r. record r { disabled_cause = some cause; updated_at = now }) in
    let s' : Sqlite = record s { rows = update_where id change s.rows } in
    if not (any (has_id id) s.rows)
    then (err (not_found id), s')
    else (ok tt, sqlite_bump_generation later s')

abbrev pub has_provider : Text → SqliteRow → Bool
has_provider profile r = text_eq r.provider profile

abbrev pub identity_of : Text → Option Text
identity_of email = if not (is_empty email) then some email else none

abbrev pub is_oauth_of : Text → SqliteRow → Bool
is_oauth_of profile r = text_eq r.provider profile && is_oauth r.kind

-- The columns that UpdateOAuth writes.
unfoldable pub rewritten : Material → Text → ℕ → SqliteRow → SqliteRow
rewritten mat enc now r = record r {
  blob = enc;
  identity_key = identity_of mat.email;
  updated_at = now;
  disabled_cause = none;
}

module _ (c : Cipher) (legacy : Legacy c) (json : Json) where
  unfoldable pub is_legacy : Text → Bool
  is_legacy blob = elim (legacy.type_of blob) [
    | none ↦ false
    | some t ↦ text_eq t (codes "api_key") || text_eq t (codes "oauth")
  ]

  unfoldable pub decrypt_data : Text → Text → Result StoreError Text
  unfolding is_legacy
  decrypt_data key blob =
      if is_legacy blob
      then ok blob
      else elim (decrypt c key blob) [ err e ↦ err (not_sealed e) | ok raw ↦ ok raw ]

  unfoldable pub material_from_row : Text → SqliteRow → Result StoreError Material
  material_from_row key r = elim (decrypt_data key r.blob) [
    | err e ↦ err e
    | ok raw ↦ elim (material_from_decrypted json r.provider r.kind raw) [
      | err e ↦ err (bad_payload e)
      | ok mat ↦ ok mat
    ]
  ]

  -- Get on the row that its query finds.
  unfoldable pub get_found : Text → Text → Option SqliteRow → Result StoreError Material
  unfolding material_from_row
  get_found key profile none = err (profile_not_found profile)
  get_found key profile (some r) = elim (valid_text r.disabled_cause) [
    | some cause ↦ err (disabled r.id cause)
    | none ↦ material_from_row key r
  ]

  unfoldable pub sqlite_get : Text → Sqlite → Result StoreError Material
  unfolding get_found
  sqlite_get profile s = get_found s.key profile (last_row (has_provider profile) s.rows)

  -- PutAPIKey and PutOAuth past the building of the payload's text.
  unfoldable pub sqlite_put :
      Text → Kind → Option Text → Text → Text → ℕ → ℕ → Sqlite → Result StoreError ℕ × Sqlite
  unfolding sqlite_bump_generation
  sqlite_put profile kind identity plain nonce now later s = elim (encrypt c s.key nonce plain) [
    | err e ↦ (err (not_sealed e), s)
    | ok enc ↦
        (let id = s.seq + 1 in
          let row : SqliteRow = record {
            id = id;
            provider = profile;
            kind = kind;
            blob = enc;
            identity_key = identity;
            disabled_cause = none;
            created_at = now;
            updated_at = now;
          } in
          (ok id, sqlite_bump_generation later (record s { rows = s.rows ++ row ∷ []; seq = id })))
  ]

  unfoldable pub sqlite_put_api_key :
      Text → Text → Text → ℕ → ℕ → Sqlite → Result StoreError ℕ × Sqlite
  sqlite_put_api_key profile key nonce now later s =
      sqlite_put profile api_key none (json.marshal_api (api_key_payload key)) nonce now later s

  unfoldable pub sqlite_put_oauth :
      Text → Material → Text → ℕ → ℕ → Sqlite → Result StoreError ℕ × Sqlite
  sqlite_put_oauth profile mat nonce now later s =
      sqlite_put profile oauth (identity_of mat.email)
        (json.marshal_oauth (oauth_material_payload mat)) nonce now later s

  -- UpdateOAuth on the id that its query finds.
  unfoldable pub sqlite_update_id :
      Material → Text → ℕ → ℕ → ℕ → Sqlite → Result StoreError Unit × Sqlite
  unfolding sqlite_bump_generation rewritten
  sqlite_update_id mat nonce now later id s =
      elim (encrypt c s.key nonce (json.marshal_oauth (oauth_material_payload mat))) [
        | err e ↦ (err (not_sealed e), s)
        | ok enc ↦
            (let s' : Sqlite = record s { rows = update_where id (rewritten mat enc now) s.rows } in
              if not (any (has_id id) s.rows)
              then (err (not_found id), s')
              else (ok tt, sqlite_bump_generation later s'))
      ]

  unfoldable pub sqlite_update_oauth :
      Text → Material → Text → ℕ → ℕ → Sqlite → Result StoreError Unit × Sqlite
  sqlite_update_oauth profile mat nonce now later s = elim (last_row (is_oauth_of profile) s.rows) [
    | none ↦ (err (oauth_profile_not_found profile), s)
    | some r ↦ sqlite_update_id mat nonce now later r.id s
  ]
