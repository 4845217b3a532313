-- ===== src/Keyring/SqlStore/Revocation.antt =====
-- What Verify accepts, and that a revoked key is refused whatever happens afterwards.
use daigate.Prelude.{
  Text, ℕ, List, [], ◌∷◌, ◌==◌, if◌then◌else◌, Bool, true, false, any, Option, none, some, ok, err,
  ◌≡◌, ◌≢◌, ◌↔◌, inl, inr, refl, ◌∙◌, arith, Bool-cases, Option-cases,
}
use daigate.Keyring.Argonhash.{Crypto, argon_verify}
use daigate.Keyring.Secret.{parse_key_id}
use daigate.Keyring.Keys.{Principal, invalid_gateway_key, is_expired}
use daigate.Keyring.SqlStore.{
  KeyRow, SqlStore, find_row, set_revoked, check_row, sql_verify, sql_revoke,
}
use daigate.Keyring.SqlStore.Laws.{revoke_found, find_row-set_revoked}

-- What an accepted text has passed: it is read as an id, the row of the id is not revoked and not
-- expired, and its hash is that of the text; the principal is read off the row.
pub record IsAccepted (crypto : Crypto) (s : SqlStore) (now : ℕ) (secret : Text) (p : Principal)
    : Type 0 where
  pub id : ℕ
  pub row : KeyRow
  pub read : parse_key_id secret ≡ some id
  pub found : find_row id s.rows ≡ some row
  pub kept : row.revoked ≡ false
  pub live : is_expired now row.expires_at ≡ false
  pub sealed : argon_verify crypto secret row.hash ≡ true
  pub principal : p ≡ record { id = row.name; key_id = row.id; scopes = row.scopes }

check_row_sound :
    (crypto : Crypto) (now : ℕ) (secret : Text) (r : KeyRow) {p : Principal}
    → check_row crypto now secret r ≡ ok p
    → (r.revoked ≡ false)
      × (is_expired now r.expires_at ≡ false)
      × (argon_verify crypto secret r.hash ≡ true)
      × (p ≡ record { id = r.name; key_id = r.id; scopes = r.scopes })
unfolding check_row
check_row_sound crypto now secret r h = (ground arith, ground arith, ground arith, ground arith)

-- Verify accepts a text, with a principal, exactly when the text is read as the id of a row that is
-- not revoked and not expired and whose hash it passes, and the principal is that of the row.
pub sql_verify_iff :
    (crypto : Crypto) (s : SqlStore) (now : ℕ) (secret : Text) (p : Principal)
    → (sql_verify crypto s now secret ≡ ok p) ↔ IsAccepted crypto s now secret p
unfolding sql_verify
sql_verify_iff crypto s now secret p = (to, from)
  where
    to : sql_verify crypto s now secret ≡ ok p → IsAccepted crypto s now secret p
    to h = elim (Option-cases (parse_key_id secret)) [
      | inl e ↦ absurd (ground (arith, e))
      | inr (id, e) ↦ elim (Option-cases (find_row id s.rows)) [
        | inl f ↦ absurd (ground (arith, e, f))
        | inr (r, f) ↦
            let (kept, live, sealed, principal) =
              check_row_sound crypto now secret r {p = p} (ground (arith, e, f)) in
            record {
              id = id;
              row = r;
              read = e;
              found = f;
              kept = kept;
              live = live;
              sealed = sealed;
              principal = principal;
            }
      ]
    ]

    from : IsAccepted crypto s now secret p → sql_verify crypto s now secret ≡ ok p
    from a = unfold check_row in ground arith

mem_find : (rs : List KeyRow) (id : ℕ) → any (λ r. r.id == id) rs ≡ true ↔ (find_row id rs ≢ none)
unfolding find_row
mem_find [] id = ground arith
mem_find (r ∷ rs) id = ground (arith, mem_find rs id)

pub rows-sql_revoke : (id : ℕ) (s : SqlStore) → (sql_revoke id s).1.rows ≡ set_revoked id s.rows
unfolding sql_revoke
rows-sql_revoke id s = ground arith

pub check_row_revoked :
    (crypto : Crypto) (now : ℕ) (secret : Text) (r : KeyRow)
    → r.revoked ≡ true
    → check_row crypto now secret r ≡ err invalid_gateway_key
unfolding check_row
check_row_revoked crypto now secret r h = rw h

sql_verify_revoked :
    (crypto : Crypto) (s : SqlStore) (now id : ℕ) (secret : Text) (o : Option KeyRow)
    → parse_key_id secret ≡ some id
    → find_row id s.rows ≡ revoke_found o
    → sql_verify crypto s now secret ≡ err invalid_gateway_key
unfolding sql_verify
sql_verify_revoked crypto s now id secret none e f = ground (arith, e, f)
sql_verify_revoked crypto s now id secret (some r) e f =
    ground (arith, e, f, check_row_revoked crypto now secret (record r { revoked = true }) refl)

sql_verify_same_rows :
    (crypto : Crypto) (s t : SqlStore) (now : ℕ) (secret : Text)
    → ((id : ℕ) → parse_key_id secret ≡ some id → find_row id s.rows ≡ find_row id t.rows)
    → sql_verify crypto s now secret ≡ sql_verify crypto t now secret
unfolding sql_verify
sql_verify_same_rows crypto s t now secret h = elim (Option-cases (parse_key_id secret)) [
  | inl e ↦ ground (arith, e)
  | inr (id, e) ↦ ground (arith, e, h id e)
]

-- Whether a text that was read so is read as this id.
abbrev pub is_read_as : ℕ → Option ℕ → Bool
is_read_as id none = false
is_read_as id (some j) = j == id

-- After Revoke of an id, whether or not a row has it, Verify refuses every text that is read as the
-- id, and answers every other text as before.
pub sql_verify-sql_revoke :
    (crypto : Crypto) (s : SqlStore) (id now : ℕ) (secret : Text)
    → sql_verify crypto (sql_revoke id s).1 now secret ≡ (
        if is_read_as id (parse_key_id secret)
        then err invalid_gateway_key
        else sql_verify crypto s now secret)
sql_verify-sql_revoke crypto s id now secret =
    let s' = (sql_revoke id s).1 in
    elim (Option-cases (parse_key_id secret)) [
      | inl e ↦ sql_verify_same_rows crypto s' s now secret (λ j f. cc (e, f)) ∙ (rw e)
      | inr (j, e) ↦ elim (Bool-cases (j == id)) [
        | inl same ↦
            let at : parse_key_id secret ≡ some id = ground (arith, e, same) in
            sql_verify_revoked crypto s' now id secret (find_row id s.rows) at
              (ground (arith, rows-sql_revoke id s, find_row-set_revoked s.rows id id))
            ∙ ground (arith, e, same)
        | inr other ↦
            sql_verify_same_rows crypto s' s now secret (λ k f.
              let differs : k ≢ id = ground (arith, e, f, other) in
              ground (arith, rows-sql_revoke id s, find_row-set_revoked s.rows id k))
            ∙ ground (arith, e, other)
      ]
    ]

-- Revoke answers without an error exactly for an id that a row has.
pub sql_revoke-eq-ok :
    (id : ℕ) (s : SqlStore) → ((sql_revoke id s).0 ≡ ok tt) ↔ (find_row id s.rows ≢ none)
unfolding sql_revoke
sql_revoke-eq-ok id s = ground (arith, mem_find s.rows id)
