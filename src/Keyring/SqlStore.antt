-- ===== src/Keyring/SqlStore.antt =====
-- SQLStore (ingress/keyring/keyring.go) over the table gateway_keys. A statement does what SQLite
-- does with it; only the table's CHECK makes one fail.
pub mod Laws
pub mod Revocation
pub mod History
use daigate.Prelude.{
  Text, ℕ, ◌+◌, List, [], ◌∷◌, ◌++◌, ◌==◌, text_eq, if◌then◌else◌, ◌||◌, not, Bool, true, false,
  any, map, Option, none, some, Result, ok, err,
}
use daigate.Keyring.Argonhash.{Crypto, argon_seal, argon_verify}
use daigate.Keyring.Secret.{format_secret, parse_key_id}
use daigate.Keyring.Keys.{
  kind_static, kind_issued, Principal, KeyMeta, KeyError, invalid_gateway_key,
  gateway_key_not_found, constraint_failed, CreateCall, unix_milli, expiry, is_expired,
  stored_scopes,
}

pub record KeyRow : Type 0 where
  pub id : ℕ
  pub name : Text
  pub kind : Text
  pub hash : Text
  pub expires_at : Option ℕ
  pub scopes : Option (List Text)
  pub revoked : Bool
  pub created_at : ℕ

-- The table, its rows in the order of their ids, and the AUTOINCREMENT sequence.
pub record SqlStore : Type 0 where
  pub rows : List KeyRow
  pub seq : ℕ

-- SELECT … WHERE id = ?
unfoldable pub find_row : ℕ → List KeyRow → Option KeyRow
find_row id [] = none
find_row id (r ∷ rs) = if r.id == id then some r else find_row id rs

-- UPDATE … SET hash = ? WHERE id = ?
unfoldable pub set_hash : ℕ → Text → List KeyRow → List KeyRow
set_hash id hash [] = []
set_hash id hash (r ∷ rs) =
    (if r.id == id then record r { hash = hash } else r) ∷ set_hash id hash rs

-- UPDATE … SET revoked = 1 WHERE id = ?
unfoldable pub set_revoked : ℕ → List KeyRow → List KeyRow
set_revoked id [] = []
set_revoked id (r ∷ rs) =
    (if r.id == id then record r { revoked = true } else r) ∷ set_revoked id rs

abbrev pub new_row : CreateCall → Option ℕ → ℕ → KeyRow
new_row call exp id = record {
  id = id;
  name = call.name;
  kind = call.kind;
  hash = [];
  expires_at = exp;
  scopes = stored_scopes call.scopes;
  revoked = false;
  created_at = unix_milli call.now;
}

module _ (crypto : Crypto) where
  -- Create once the expiry is known: the INSERT, the secret, its hash and the UPDATE.
  unfoldable pub insert_key :
      CreateCall → SqlStore → Option ℕ → Result KeyError (Text × ℕ) × SqlStore
  insert_key call s exp =
      if text_eq call.kind kind_static || text_eq call.kind kind_issued
      then (let id = s.seq + 1 in
          let secret = format_secret id call.tail in
          let inserted = s.rows ++ new_row call exp id ∷ [] in
          (
            ok (secret, id),
            record { rows = set_hash id (argon_seal crypto call.salt secret) inserted; seq = id },
          ))
      else (err constraint_failed, s)

  unfoldable pub sql_create : CreateCall → SqlStore → Result KeyError (Text × ℕ) × SqlStore
  unfolding insert_key
  sql_create call s = elim (expiry call) [ err e ↦ (err e, s) | ok exp ↦ insert_key call s exp ]

  -- The checks of `verifyByID` on the row it found.
  unfoldable pub check_row : ℕ → Text → KeyRow → Result KeyError Principal
  check_row now secret r =
      if r.revoked
      then err invalid_gateway_key
      else if is_expired now r.expires_at
      then err invalid_gateway_key
      else if not (argon_verify crypto secret r.hash)
      then err invalid_gateway_key
      else ok (record { id = r.name; key_id = r.id; scopes = r.scopes })

  unfoldable pub verify_by_id : SqlStore → ℕ → ℕ → Text → Result KeyError Principal
  verify_by_id s now id secret = elim (find_row id s.rows) [
    | none ↦ err invalid_gateway_key
    | some r ↦ check_row now secret r
  ]

  unfoldable pub sql_verify : SqlStore → ℕ → Text → Result KeyError Principal
  unfolding verify_by_id
  sql_verify s now secret = elim (parse_key_id secret) [
    | none ↦ err invalid_gateway_key
    | some id ↦ verify_by_id s now id secret
  ]

abbrev pub row_meta : KeyRow → KeyMeta
row_meta r = record {
  id = r.id;
  name = r.name;
  kind = r.kind;
  expires_at = r.expires_at;
  revoked = r.revoked;
  scopes = r.scopes;
  created_at = r.created_at;
}

unfoldable pub sql_list : SqlStore → List KeyMeta
sql_list s = map row_meta s.rows

-- RowsAffected() == 0
unfoldable pub sql_revoke : ℕ → SqlStore → Result KeyError Unit × SqlStore
sql_revoke id s =
    let s' = record s { rows = set_revoked id s.rows } in
    if any (λ r. r.id == id) s.rows then (ok tt, s') else (err (gateway_key_not_found id), s')
