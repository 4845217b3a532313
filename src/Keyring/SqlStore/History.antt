-- ===== src/Keyring/SqlStore/History.antt =====
-- Sequences of creations and revocations: a revoked key stays refused.
use daigate.Prelude.{
  Text, ℕ, ◌≤◌, List, [], ◌∷◌, ◌==◌, true, some, err, ◌≡◌, ◌≢◌, inl, inr, refl, sym, ◌∙◌, ap, arith,
  Bool-cases, Result-cases, subst,
}
use mathlib.Core.Path.{subst₂}
use daigate.Keyring.Argonhash.{Crypto}
use daigate.Keyring.Secret.{parse_key_id}
use daigate.Keyring.Keys.{KeyError, invalid_gateway_key, CreateCall}
use daigate.Keyring.SqlStore.{KeyRow, SqlStore, find_row, sql_create, sql_verify, sql_revoke}
use daigate.Keyring.SqlStore.Laws.{
  IsAscending, IsSequenced, lo-le-hi, IsAscending-set_revoked, find_row-set_revoked,
  sql_create-IsCreated,
}
use daigate.Keyring.SqlStore.Revocation.{rows-sql_revoke, check_row_revoked}

-- What an administrator does to the store.
pub data KeyOp : Type 0 where
  create : CreateCall → KeyOp
  revoke : ℕ → KeyOp

module _ (crypto : Crypto) where
  unfoldable pub run_op : KeyOp → SqlStore → SqlStore
  run_op (create call) s = (sql_create crypto call s).1
  run_op (revoke id) s = (sql_revoke id s).1

  unfoldable pub run_ops : List KeyOp → SqlStore → SqlStore
  run_ops [] s = s
  run_ops (o ∷ os) s = run_ops os (run_op o s)

-- The ids are in order, and the row of `id` is there and is revoked.
record IsDead (id : ℕ) (s : SqlStore) : Type 0 where
  row : KeyRow
  found : find_row id s.rows ≡ some row
  revoked : row.revoked ≡ true
  sequenced : IsSequenced s

find_row_bound :
    (lo : ℕ) (rs : List KeyRow) (hi id : ℕ) {r : KeyRow}
    → IsAscending lo rs hi
    → find_row id rs ≡ some r
    → id ≤ hi
unfolding find_row
find_row_bound lo [] hi id h e = cc
find_row_bound lo (x ∷ rs) hi id {r} h e = elim (Bool-cases (x.id == id)) [
  | inl t ↦ ground (arith, t, lo-le-hi x.id rs hi h.1)
  | inr t ↦ find_row_bound x.id rs hi id h.1 (rw t at e)
]

sql_create_err :
    (crypto : Crypto) (call : CreateCall) (s : SqlStore) {e : KeyError}
    → (sql_create crypto call s).0 ≡ err e
    → (sql_create crypto call s).1 ≡ s
unfolding sql_create
sql_create_err crypto call s h = ground arith

sql_verify_found_revoked :
    (crypto : Crypto) (s : SqlStore) (now id : ℕ) (secret : Text) (r : KeyRow)
    → parse_key_id secret ≡ some id
    → find_row id s.rows ≡ some r
    → r.revoked ≡ true
    → sql_verify crypto s now secret ≡ err invalid_gateway_key
unfolding sql_verify
sql_verify_found_revoked crypto s now id secret r read found h =
    ground (arith, read, found, check_row_revoked crypto now secret r h)

seq-sql_revoke : (id : ℕ) (s : SqlStore) → (sql_revoke id s).1.seq ≡ s.seq
unfolding sql_revoke
seq-sql_revoke id s = ground arith

module _ (crypto : Crypto) where
  IsDead-create :
      (call : CreateCall) (id : ℕ) (s : SqlStore)
      → IsDead id s
      → IsDead id (run_op crypto (create call) s)
  unfolding run_op
  IsDead-create call id s d = elim (Result-cases (sql_create crypto call s).0) [
    | inr (e, failed) ↦ subst (IsDead id) (sym (sql_create_err crypto call s failed)) d
    | inl ((secret, new_id), made) ↦
        let (exp, fine, c) =
          sql_create-IsCreated crypto call s {secret = secret} {id = new_id}
            {s' = (sql_create crypto call s).1} d.sequenced
            (ap (λ r. (r, (sql_create crypto call s).1)) made) in
        let bound = find_row_bound 0 s.rows s.seq id d.sequenced d.found in
        let old : id ≢ new_id = λ same. absurd (omega (arith, c.next_id)) in
        record {
          row = d.row;
          found = c.others id old ∙ d.found;
          revoked = d.revoked;
          sequenced = c.sequenced;
        }
  ]

  IsDead-revoke : (j id : ℕ) (s : SqlStore) → IsDead id s → IsDead id (run_op crypto (revoke j) s)
  unfolding run_op
  IsDead-revoke j id s d =
      let rows = rows-sql_revoke j s in
      let sequenced : IsSequenced (sql_revoke j s).1 =
        subst₂ (IsAscending 0) (sym rows) (sym (seq-sql_revoke j s))
          (IsAscending-set_revoked 0 j s.rows s.seq d.sequenced) in
      elim (Bool-cases (id == j)) [
        | inl same ↦ record {
          row = record d.row { revoked = true };
          found = ground (arith, rows, find_row-set_revoked s.rows j id, same, d.found);
          revoked = refl;
          sequenced = sequenced;
        }
        | inr other ↦ record {
          row = d.row;
          found = ground (arith, rows, find_row-set_revoked s.rows j id, other, d.found);
          revoked = d.revoked;
          sequenced = sequenced;
        }
      ]

  IsDead-run_ops :
      (ops : List KeyOp) (id : ℕ) (s : SqlStore) → IsDead id s → IsDead id (run_ops crypto ops s)
  unfolding run_ops
  IsDead-run_ops [] id s d = d
  IsDead-run_ops (create call ∷ os) id s d =
      IsDead-run_ops os id (run_op crypto (create call) s) (IsDead-create call id s d)
  IsDead-run_ops (revoke j ∷ os) id s d =
      IsDead-run_ops os id (run_op crypto (revoke j) s) (IsDead-revoke j id s d)

module _ (crypto : Crypto) where
  pub run_op-IsSequenced :
      (op : KeyOp) (s : SqlStore) → IsSequenced s → IsSequenced (run_op crypto op s)
  unfolding run_op
  run_op-IsSequenced (create call) s w = elim (Result-cases (sql_create crypto call s).0) [
    | inr (e, failed) ↦ subst IsSequenced (sym (sql_create_err crypto call s failed)) w
    | inl ((secret, id), made) ↦
        let (exp, fine, c) =
          sql_create-IsCreated crypto call s {secret = secret} {id = id}
            {s' = (sql_create crypto call s).1} w
            (ap (λ r. (r, (sql_create crypto call s).1)) made) in
        c.sequenced
  ]
  run_op-IsSequenced (revoke id) s w =
      subst₂ (IsAscending 0) (sym (rows-sql_revoke id s)) (sym (seq-sql_revoke id s))
        (IsAscending-set_revoked 0 id s.rows s.seq w)

-- Once the key of a row is revoked, no text that is read as its id is accepted again, at any time
-- and after any further creations and revocations, failing ones included.
pub sql_verify-run_ops_revoked :
    (crypto : Crypto) (ops : List KeyOp) (s : SqlStore) (id now : ℕ) (secret : Text) (r : KeyRow)
    → IsSequenced s
    → find_row id s.rows ≡ some r
    → parse_key_id secret ≡ some id
    → sql_verify crypto (run_ops crypto ops (sql_revoke id s).1) now secret
      ≡ err invalid_gateway_key
sql_verify-run_ops_revoked crypto ops s id now secret r w found read =
    let rows = rows-sql_revoke id s in
    let dead : IsDead id (sql_revoke id s).1 = record {
      row = record r { revoked = true };
      found = ground (arith, rows, find_row-set_revoked s.rows id id, found);
      revoked = refl;
      sequenced =
          subst₂ (IsAscending 0) (sym rows) (sym (seq-sql_revoke id s))
            (IsAscending-set_revoked 0 id s.rows s.seq w);
    } in
    let d = IsDead-run_ops crypto ops id (sql_revoke id s).1 dead in
    sql_verify_found_revoked crypto (run_ops crypto ops (sql_revoke id s).1) now id secret d.row
      read d.found d.revoked
