-- ===== src/Credential/Sqlite/Runs.antt =====
-- Histories of operations on the database, and that they keep its rows regular.
use daigate.Prelude.{
  Text, ℕ, ◌+◌, List, [], ◌∷◌, ◌++◌, is_empty, any, true, false, Option, none, some, ◌≡◌, refl,
  All-append, Bool-cases, Option-cases, Result-cases, inl, inr,
}
use daigate.Credential.Material.{Kind, Material}
use daigate.Credential.Seal.{Cipher, encrypt}
use daigate.Credential.Payload.{Json, oauth_material_payload}
use daigate.Credential.Store.{is_oauth}
use daigate.Credential.Sqlite.{
  SqliteRow, Sqlite, Legacy, last_row, update_where, has_id, has_provider, sqlite_disable,
  is_legacy, sqlite_put, identity_of, is_oauth_of, rewritten, sqlite_update_id, sqlite_update_oauth,
}
use daigate.Credential.Sqlite.View.{IsAscending-append, IsAscending-update_where}
use daigate.Credential.Sqlite.{sqlite_bump_generation, sqlite_put_api_key, sqlite_put_oauth}
use daigate.Credential.Payload.{api_key_payload}
use daigate.Credential.Store.History.{
  Operation, put_api_key_op, put_oauth_op, update_oauth_op, disable_op, bump_op,
}
use daigate.Credential.Material.{api_key, oauth}
use daigate.Credential.Sqlite.Rows.{All-update_where}
use daigate.Credential.Sqlite.Refinement.{IsRegular, encrypt-sealed}

module _ (c : Cipher) (legacy : Legacy c) (json : Json) where
  -- An operation and the second clock reading of the database's BumpGeneration.
  unfoldable pub run_sqlite_op : Operation × ℕ → Sqlite → Sqlite
  run_sqlite_op (put_api_key_op profile key nonce now, later) s =
      (sqlite_put_api_key c legacy json profile key nonce now later s).1
  run_sqlite_op (put_oauth_op profile mat nonce now, later) s =
      (sqlite_put_oauth c legacy json profile mat nonce now later s).1
  run_sqlite_op (update_oauth_op profile mat nonce now, later) s =
      (sqlite_update_oauth c legacy json profile mat nonce now later s).1
  run_sqlite_op (disable_op id cause now, later) s = (sqlite_disable id cause now later s).1
  run_sqlite_op (bump_op now, later) s = sqlite_bump_generation now s

  unfoldable pub run_sqlite_ops : List (Operation × ℕ) → Sqlite → Sqlite
  unfolding run_sqlite_op
  run_sqlite_ops [] s = s
  run_sqlite_ops (op ∷ ops) s = run_sqlite_ops ops (run_sqlite_op op s)

  -- An update that the two stores treat alike: it carries an email, and the newest row of its
  -- profile, if there is one, is an oauth row.
  abbrev pub IsAlike : Operation × ℕ → Sqlite → Type 0
  IsAlike (update_oauth_op profile mat nonce now, later) s =
      (is_empty mat.email ≡ false)
      × ((r : SqliteRow) → last_row (has_provider profile) s.rows ≡ some r → is_oauth r.kind ≡ true)
  IsAlike (put_api_key_op profile key nonce now, later) s = Unit
  IsAlike (put_oauth_op profile mat nonce now, later) s = Unit
  IsAlike (disable_op id cause now, later) s = Unit
  IsAlike (bump_op now, later) s = Unit

  abbrev pub AreAlike : List (Operation × ℕ) → Sqlite → Type 0
  AreAlike [] s = Unit
  AreAlike (op ∷ ops) s = IsAlike op s × AreAlike ops (run_sqlite_op op s)

  put-IsRegular :
      (profile : Text) (kind : Kind) (identity : Option Text) (plain nonce : Text) (now later : ℕ)
      (s : Sqlite)
      → IsRegular c legacy json s
      → IsRegular c legacy json
          (sqlite_put c legacy json profile kind identity plain nonce now later s).1
  unfolding sqlite_put
  put-IsRegular profile kind identity plain nonce now later s h =
      elim (Result-cases (encrypt c s.key nonce plain)) [
        | inr (e, failed) ↦ rw (sqlite_put, failed) h
        | inl (enc, fine) ↦
            let row : SqliteRow = record {
              id = s.seq + 1;
              provider = profile;
              kind = kind;
              blob = enc;
              identity_key = identity;
              disabled_cause = none;
              created_at = now;
              updated_at = now;
            } in
            let made : IsRegular c legacy json (record s {
              rows = s.rows ++ row ∷ [];
              seq = s.seq + 1;
              generation = s.generation + 1;
              generated_at = later;
            }) =
              record {
                ascending = IsAscending-append 0 s.rows s.seq row h.ascending refl;
                sealed =
                    All-append (λ r. is_legacy c legacy json r.blob ≡ false) s.rows (row ∷ [])
                      h.sealed (encrypt-sealed c legacy json s.key nonce plain fine, tt);
              } in
            rw (sqlite_put, fine) made
      ]

  change-IsRegular :
      (id gen at : ℕ) (f : SqliteRow → SqliteRow) (s : Sqlite)
      → ((r : SqliteRow) → (f r).id ≡ r.id)
      → ((r : SqliteRow)
          → is_legacy c legacy json r.blob ≡ false
          → is_legacy c legacy json (f r).blob ≡ false)
      → IsRegular c legacy json s
      → IsRegular c legacy json
          (record s { rows = update_where id f s.rows; generation = gen; generated_at = at })
  change-IsRegular id gen at f s same keep h = record {
    ascending = IsAscending-update_where 0 id f s.rows s.seq same h.ascending;
    sealed =
        All-update_where (λ r. is_legacy c legacy json r.blob ≡ false) id f s.rows keep h.sealed;
  }

  disable-IsRegular :
      (id : ℕ) (cause : Text) (now later : ℕ) (s : Sqlite)
      → IsRegular c legacy json s
      → IsRegular c legacy json (sqlite_disable id cause now later s).1
  unfolding sqlite_disable
  disable-IsRegular id cause now later s h =
      let f : SqliteRow → SqliteRow =
        (λ r. record r { disabled_cause = some cause; updated_at = now }) in
      elim (Bool-cases (any (has_id id) s.rows)) [
        | inr missed ↦
            rw (sqlite_disable, missed)
              (change-IsRegular id s.generation s.generated_at f s (λ r. refl) (λ r k. k) h)
        | inl there ↦
            rw (sqlite_disable, there)
              (change-IsRegular id (s.generation + 1) later f s (λ r. refl) (λ r k. k) h)
      ]

  update_id-IsRegular :
      (mat : Material) (nonce : Text) (now later id : ℕ) (s : Sqlite)
      → IsRegular c legacy json s
      → IsRegular c legacy json (sqlite_update_id c legacy json mat nonce now later id s).1
  unfolding sqlite_update_id rewritten
  update_id-IsRegular mat nonce now later id s h =
      let plain = json.marshal_oauth (oauth_material_payload mat) in
      elim (Result-cases (encrypt c s.key nonce plain)) [
        | inr (e, failed) ↦ rw (sqlite_update_id, failed) h
        | inl (enc, fine) ↦
            let f = rewritten mat enc now in
            let fresh = encrypt-sealed c legacy json s.key nonce plain fine in
            elim (Bool-cases (any (has_id id) s.rows)) [
              | inr missed ↦
                  rw (sqlite_update_id, fine, missed)
                    (change-IsRegular id s.generation s.generated_at f s (λ r. refl) (λ r k. fresh)
                      h)
              | inl there ↦
                  rw (sqlite_update_id, fine, there)
                    (change-IsRegular id (s.generation + 1) later f s (λ r. refl) (λ r k. fresh) h)
            ]
      ]

  pub run_sqlite_op-IsRegular :
      (op : Operation × ℕ) (s : Sqlite)
      → IsRegular c legacy json s
      → IsRegular c legacy json (run_sqlite_op op s)
  unfolding run_sqlite_op sqlite_put_api_key sqlite_put_oauth sqlite_bump_generation
      sqlite_update_oauth
  run_sqlite_op-IsRegular (put_api_key_op profile key nonce now, later) s h =
      put-IsRegular profile api_key none (json.marshal_api (api_key_payload key)) nonce now later s
        h
  run_sqlite_op-IsRegular (put_oauth_op profile mat nonce now, later) s h =
      put-IsRegular profile oauth (identity_of mat.email)
        (json.marshal_oauth (oauth_material_payload mat)) nonce now later s h
  run_sqlite_op-IsRegular (update_oauth_op profile mat nonce now, later) s h =
      elim (Option-cases (last_row (is_oauth_of profile) s.rows)) [
        | inl missing ↦ rw (run_sqlite_op, sqlite_update_oauth, missing) h
        | inr (r, found) ↦
            rw (run_sqlite_op, sqlite_update_oauth, found)
              (update_id-IsRegular mat nonce now later r.id s h)
      ]
  run_sqlite_op-IsRegular (disable_op id cause now, later) s h =
      disable-IsRegular id cause now later s h
  run_sqlite_op-IsRegular (bump_op now, later) s h = record {
    ascending = h.ascending;
    sealed = h.sealed;
  }
