-- ===== src/Credential/Sqlite/Refinement.antt =====
-- Each operation of the credential store on SQLite against the store in memory.
use daigate.Prelude.{
  Text, ℕ, ◌+◌, [], codes, is_empty, text_eq, any, lookup, length, ◌==◌, true, false, Option, none,
  some, ok, ◌≡◌, refl, ◌∙◌, arith, All, Bool-cases, Option-cases, Result-cases, inl, inr,
}
use daigate.Catalog.Routing.{or_zero}
use daigate.Credential.Material.{Kind, Material}
use daigate.Credential.Seal.{Cipher, Envelope, encrypt, decrypt}
use daigate.Credential.Payload.{Json, oauth_material_payload}
use daigate.Credential.Store.{
  Memory, disable, put_row, decrypt_row, get_row, get, put, refreshed, is_oauth, update_row,
  update_oauth,
}
use daigate.Credential.Sqlite.{
  SqliteRow, Sqlite, Legacy, last_row, has_id, has_provider, sqlite_disable, is_legacy,
  decrypt_data, material_from_row, get_found, sqlite_get, sqlite_put, rewritten, sqlite_update_id,
  sqlite_update_oauth,
}
use daigate.Credential.Sqlite.View.{
  row_of, view, profiles_of, IsAscending, map-row_of_append, profiles_of-append,
  profiles_of-update_where, map-update_where, row_at-any, row_at-not_any, update_where-not_any,
  lookup-profiles_of, row_at-last_row,
}
use daigate.Credential.Sqlite.Rows.{
  last_row-All, last_row-is_oauth_of-none, last_row-is_oauth_of, rewritten-refreshed,
}

-- The same result, and a store in memory that is the view of the database. The two disagree on the
-- time of the last change, since the database takes a reading of its own.
abbrev pub IsRefined : {A : Type 0} → A × Memory → A × Sqlite → Type 0
IsRefined r r' = (at : ℕ) × (r ≡ (r'.0, view at r'.1))

module _ (c : Cipher) (legacy : Legacy c) (json : Json) where
  -- Ids are distinct and in order, and no row is a plaintext row of an older program.
  pub record IsRegular (s : Sqlite) : Type 0 where
    pub ascending : IsAscending 0 s.rows s.seq
    pub sealed : All (λ r. is_legacy c legacy json r.blob ≡ false) s.rows

  pub encrypt-sealed :
      (key nonce plain : Text) {enc : Text}
      → encrypt c key nonce plain ≡ ok enc
      → is_legacy c legacy json enc ≡ false
  unfolding encrypt is_legacy text_eq codes
  encrypt-sealed key nonce plain {enc} h = elim (Bool-cases (length key == 32)) [
    | inr bad ↦ absurd (ground (arith, bad, h))
    | inl good ↦
        let env : Envelope = record {
          v = 1;
          alg = codes "aes-256-gcm";
          nonce = c.encode nonce;
          ct = c.encode (c.gcm_seal key nonce plain);
        } in
        let same : enc ≡ c.marshal env = ground (arith, good, h) in
        rw (same, is_legacy, legacy.type_of-marshal env) refl
  ]

  get_row-found :
      (key profile : Text) (r : SqliteRow)
      → is_legacy c legacy json r.blob ≡ false
      → get_row c json key r.id (some (row_of r)) ≡ get_found c legacy json key profile (some r)
  unfolding get_row get_found material_from_row decrypt_data decrypt_row
  get_row-found key profile r h = elim (Option-cases r.disabled_cause) [
    | inl never ↦ elim (Result-cases (decrypt c key r.blob)) [
      | inr (e, failed) ↦ ground (arith, never, h, failed)
      | inl (raw, opened) ↦ ground (arith, never, h, opened)
    ]
    | inr (cause, since) ↦ elim (Bool-cases (is_empty cause)) [
      | inr told ↦ ground (arith, since, told)
      | inl untold ↦ elim (Result-cases (decrypt c key r.blob)) [
        | inr (e, failed) ↦ ground (arith, since, untold, h, failed)
        | inl (raw, opened) ↦ ground (arith, since, untold, h, opened)
      ]
    ]
  ]

  -- Get reads the same from the database as from its view.
  pub get-view :
      (profile : Text) (at : ℕ) (s : Sqlite)
      → IsRegular s
      → get c json profile (view at s) ≡ sqlite_get c legacy json profile s
  unfolding get sqlite_get view lookup
  get-view profile at s h = elim (Option-cases (last_row (has_provider profile) s.rows)) [
    | inl missing ↦
        let l : lookup profile (profiles_of s.rows []) ≡ none =
          lookup-profiles_of profile s.rows [] ∙ rw missing refl in
        rw (get, sqlite_get, get_found, missing, l) refl
    | inr (r, newest) ↦
        let l : lookup profile (profiles_of s.rows []) ≡ some r.id =
          lookup-profiles_of profile s.rows [] ∙ rw newest refl in
        let (stands, own, above, there) =
          row_at-last_row (has_provider profile) 0 s.rows s.seq {r = r} h.ascending newest in
        let fresh =
          last_row-All (λ x. is_legacy c legacy json x.blob ≡ false) (has_provider profile) s.rows
            {r = r} h.sealed newest in
        rw (get, sqlite_get, newest, l, stands) (get_row-found s.key profile r fresh)
  ]

  pub put-view :
      (profile : Text) (kind : Kind) (identity : Option Text) (plain nonce : Text)
      (now later at : ℕ) (s : Sqlite)
      → IsRefined
          (put c json profile kind (or_zero [] identity) plain nonce now (view at s))
          (sqlite_put c legacy json profile kind identity plain nonce now later s)
  unfolding put put_row view sqlite_put
  put-view profile kind identity plain nonce now later at s =
      elim (Result-cases (encrypt c s.key nonce plain)) [
        | inr (e, failed) ↦ (at, rw (put, sqlite_put, failed) refl)
        | inl (enc, fine) ↦
            let row : SqliteRow = record {
              id = s.seq + 1;
              provider = profile;
              kind = kind;
              blob = enc;
              identity_key = identity;
              disabled_cause = none;
              created_at = now;
              updated_at = now;
            } in
            let rows = map-row_of_append s.rows row in
            let profiles = profiles_of-append s.rows row [] in
            (now, rw (put, sqlite_put, put_row, fine, rows, profiles) refl)
      ]

  pub disable-view :
      (id : ℕ) (cause : Text) (now later at : ℕ) (s : Sqlite)
      → IsRegular s
      → IsRefined (disable id cause now (view at s)) (sqlite_disable id cause now later s)
  unfolding disable view sqlite_disable
  disable-view id cause now later at s h =
      let f : SqliteRow → SqliteRow =
        (λ r. record r { disabled_cause = some cause; updated_at = now }) in
      elim (Bool-cases (any (has_id id) s.rows)) [
        | inr missed ↦
            let no_row = row_at-not_any id s.rows missed in
            let same = update_where-not_any id f s.rows missed in
            (at, rw (disable, sqlite_disable, no_row, missed, same) refl)
        | inl there ↦
            let (r, found) = row_at-any id s.rows there in
            let rows =
              map-update_where 0 s.rows s.seq id f
                (λ x. record x { disabled_cause = cause; updated_at = now }) h.ascending
                (λ x. refl) in
            let profiles = profiles_of-update_where id f s.rows [] (λ x. refl) (λ x. refl) in
            (now, rw (disable, sqlite_disable, found, there, rows, profiles) refl)
      ]

  update_id-view :
      (profile : Text) (mat : Material) (nonce : Text) (now later at : ℕ) (s : Sqlite)
      (r : SqliteRow)
      → IsRegular s
      → is_empty mat.email ≡ false
      → is_oauth r.kind ≡ true
      → any (has_id r.id) s.rows ≡ true
      → IsRefined
          (update_row c json profile mat nonce now r.id (some (row_of r)) (view at s))
          (sqlite_update_id c legacy json mat nonce now later r.id s)
  unfolding update_row view sqlite_update_id
  update_id-view profile mat nonce now later at s r h email fits there =
      let plain = json.marshal_oauth (oauth_material_payload mat) in
      elim (Result-cases (encrypt c s.key nonce plain)) [
        | inr (e, failed) ↦ (at, rw (update_row, sqlite_update_id, fits, failed) refl)
        | inl (enc, fine) ↦
            let f = rewritten mat enc now in
            let g = refreshed mat enc now in
            let rows =
              map-update_where 0 s.rows s.seq r.id f g h.ascending
                (rewritten-refreshed mat enc now email) in
            let profiles = profiles_of-update_where r.id f s.rows [] (λ x. refl) (λ x. refl) in
            (now, rw (update_row, sqlite_update_id, fits, fine, there, rows, profiles) refl)
      ]

  pub update_oauth-view :
      (profile : Text) (mat : Material) (nonce : Text) (now later at : ℕ) (s : Sqlite)
      → IsRegular s
      → is_empty mat.email ≡ false
      → ((r : SqliteRow) → last_row (has_provider profile) s.rows ≡ some r → is_oauth r.kind ≡ true)
      → IsRefined
          (update_oauth c json profile mat nonce now (view at s))
          (sqlite_update_oauth c legacy json profile mat nonce now later s)
  unfolding update_oauth update_row view sqlite_update_oauth sqlite_update_id lookup
  update_oauth-view profile mat nonce now later at s h email newest =
      elim (Option-cases (last_row (has_provider profile) s.rows)) [
        | inl missing ↦
            let l : lookup profile (profiles_of s.rows []) ≡ none =
              lookup-profiles_of profile s.rows [] ∙ rw missing refl in
            let missing' = last_row-is_oauth_of-none profile s.rows missing in
            (at, rw (update_oauth, sqlite_update_oauth, missing', l) refl)
        | inr (r, found) ↦
            let l : lookup profile (profiles_of s.rows []) ≡ some r.id =
              lookup-profiles_of profile s.rows [] ∙ rw found refl in
            let (stands, own, above, there) =
              row_at-last_row (has_provider profile) 0 s.rows s.seq {r = r} h.ascending found in
            let fits = newest r found in
            let found' = last_row-is_oauth_of profile s.rows {r = r} found fits in
            rw (update_oauth, sqlite_update_oauth, found', l, stands)
              (update_id-view profile mat nonce now later at s r h email fits there)
      ]
