-- ===== src/Keyring/MemoryStore/Refinement.antt =====
-- MemoryStore does what SQLStore does: the table that a memory store stands for, and each operation
-- on both sides.
use daigate.Prelude.{
  Text, ℕ, ◌+◌, ◌≤◌, List, [], ◌∷◌, ◌++◌, ◌==◌, ==_iff, text_eq, ◌||◌, true, false, any, map,
  Option, none, some, Result, ok, err, ◌≡◌, ◌⊎◌, inl, inr, refl, ap, arith, Bool-cases,
  Option-cases,
}
use daigate.Keyring.Argonhash.{Crypto, argon_seal}
use daigate.Keyring.Secret.{format_secret, parse_key_id}
use daigate.Keyring.Keys.{kind_static, kind_issued, Principal, KeyError, CreateCall, expiry}
use daigate.Keyring.SqlStore.{
  KeyRow, SqlStore, find_row, set_hash, set_revoked, new_row, insert_key, sql_create, check_row,
  verify_by_id, sql_verify, sql_revoke,
}
use daigate.Keyring.SqlStore.Laws.{IsAscending, IsSequenced, lo-le-hi}
use daigate.Keyring.MemoryStore.{
  MemoryRecord, MemoryStore, new_record, mem_create, verify_loop, mem_verify, revoke_first,
  mem_revoke,
}

-- The row of a record.
abbrev pub row_of : MemoryRecord → KeyRow
row_of rec = record {
  id = rec.meta.id;
  name = rec.meta.name;
  kind = rec.meta.kind;
  hash = rec.sealed;
  expires_at = rec.meta.expires_at;
  scopes = rec.scopes;
  revoked = rec.meta.revoked;
  created_at = rec.meta.created_at;
}

-- The table of a memory store.
abbrev pub table_of : MemoryStore → SqlStore
table_of m = record { rows = map row_of m.records; seq = m.next }

find_row-below :
    (lo : ℕ) (rs : List KeyRow) (hi id : ℕ) → IsAscending lo rs hi → id ≤ lo → find_row id rs ≡ none
unfolding find_row
find_row-below lo [] hi id h k = refl
find_row-below lo (r ∷ rs) hi id h k =
    ground (arith, find_row-below r.id rs hi id h.1 (omega (arith, h.0)))

set_revoked-below :
    (lo : ℕ) (rs : List KeyRow) (hi id : ℕ)
    → IsAscending lo rs hi
    → id ≤ lo
    → set_revoked id rs ≡ rs
unfolding set_revoked
set_revoked-below lo [] hi id h k = refl
set_revoked-below lo (r ∷ rs) hi id h k =
    ground (arith, set_revoked-below r.id rs hi id h.1 (omega (arith, h.0)))

set_hash-append :
    (lo : ℕ) (rs : List KeyRow) (hi : ℕ) (r : KeyRow) (hash : Text)
    → IsAscending lo rs hi
    → r.id ≡ hi + 1
    → set_hash (hi + 1) hash (rs ++ r ∷ []) ≡ rs ++ record r { hash = hash } ∷ []
unfolding set_hash
set_hash-append lo [] hi r hash h e = ground (arith, e)
set_hash-append lo (x ∷ rs) hi r hash h e =
    ground (arith, lo-le-hi x.id rs hi h.1, set_hash-append x.id rs hi r hash h.1 e)

map-append_row :
    (recs : List MemoryRecord) (rec : MemoryRecord)
    → map row_of (recs ++ rec ∷ []) ≡ map row_of recs ++ row_of rec ∷ []
map-append_row [] rec = refl
map-append_row (x ∷ recs) rec = ap (λ l. row_of x ∷ l) (map-append_row recs rec)

module _ (crypto : Crypto) where
  -- What `verify_by_id` gives for a list of rows.
  checked : ℕ → Text → Option KeyRow → Result KeyError Principal
  checked now secret none = err KeyError.invalid_gateway_key
  checked now secret (some r) = check_row crypto now secret r

  verify_loop-checked :
      (lo : ℕ) (recs : List MemoryRecord) (hi now id : ℕ) (secret : Text)
      → IsAscending lo (map row_of recs) hi
      → verify_loop crypto recs now id secret ≡ checked now secret (find_row id (map row_of recs))
  unfolding verify_loop checked find_row check_row
  verify_loop-checked lo [] hi now id secret h = refl
  verify_loop-checked lo (rec ∷ recs) hi now id secret h =
      let ih = verify_loop-checked rec.meta.id recs hi now id secret h.1 in
      elim (Bool-cases (rec.meta.id == id)) [
        | inr other ↦ ground (arith, other, ih)
        | inl this ↦
            let gone =
              find_row-below rec.meta.id (map row_of recs) hi id h.1
                (omega (arith, (==_iff rec.meta.id id).0 this)) in
            ground (arith, this, ih, gone)
      ]

  -- Verify of a memory store answers every text as Verify of its table does, at any time.
  pub mem_verify-table_of :
      (m : MemoryStore) (now : ℕ) (secret : Text)
      → IsSequenced (table_of m)
      → mem_verify crypto m now secret ≡ sql_verify crypto (table_of m) now secret
  unfolding mem_verify sql_verify verify_by_id checked
  mem_verify-table_of m now secret w = elim (Option-cases (parse_key_id secret)) [
    | inl e ↦ ground (arith, e)
    | inr (id, e) ↦ elim (Option-cases (find_row id (table_of m).rows)) [
      | inl f ↦ ground (arith, e, f, verify_loop-checked 0 m.records m.next now id secret w)
      | inr (r, f) ↦ ground (arith, e, f, verify_loop-checked 0 m.records m.next now id secret w)
    ]
  ]

  -- Create of a memory store and of its table give the same answer and leave the same table, for a
  -- kind that the table admits and a call whose expiry can be worked out.
  pub mem_create-table_of :
      (call : CreateCall) (m : MemoryStore) (exp : Option ℕ)
      → IsSequenced (table_of m)
      → (text_eq call.kind kind_static || text_eq call.kind kind_issued) ≡ true
      → expiry call ≡ ok exp
      → sql_create crypto call (table_of m)
        ≡ ((mem_create crypto call m).0, table_of (mem_create crypto call m).1)
  unfolding mem_create sql_create insert_key
  mem_create-table_of call m exp w good fine =
      let id = m.next + 1 in
      let hash = argon_seal crypto call.salt (format_secret id call.tail) in
      let rows =
        set_hash-append 0 (map row_of m.records) m.next (new_row call exp id) hash w refl in
      let shown = map-append_row m.records (new_record call exp id hash) in
      rw (mem_create, sql_create, insert_key, fine, good, rows, shown) refl

revoke_first-rows :
    (lo : ℕ) (recs : List MemoryRecord) (hi id : ℕ)
    → IsAscending lo (map row_of recs) hi
    → ((revoke_first id recs ≡ none)
        × (any (λ r. r.id == id) (map row_of recs) ≡ false)
        × (set_revoked id (map row_of recs) ≡ map row_of recs))
      ⊎ ((recs' : List MemoryRecord) × (revoke_first id recs ≡ some recs')
          × (any (λ r. r.id == id) (map row_of recs) ≡ true)
          × (set_revoked id (map row_of recs) ≡ map row_of recs'))
unfolding revoke_first set_revoked
revoke_first-rows lo [] hi id h = inl (refl, refl, refl)
revoke_first-rows lo (rec ∷ recs) hi id h = elim (Bool-cases (rec.meta.id == id)) [
  | inl this ↦
      let same =
        set_revoked-below rec.meta.id (map row_of recs) hi id h.1
          (omega (arith, (==_iff rec.meta.id id).0 this)) in
      inr (
        record rec { meta = record rec.meta { revoked = true } } ∷ recs,
        ground (arith, this),
        ground (arith, this),
        rw (this, same) refl,
      )
  | inr other ↦ elim (revoke_first-rows rec.meta.id recs hi id h.1) [
    | inl (missed, never, rows) ↦
        inl (ground (arith, other, missed), ground (arith, other, never), rw (other, rows) refl)
    | inr (recs', one, found, rows) ↦
        inr (rec ∷ recs', rw (other, one) refl, ground (arith, other, found), rw (other, rows) refl)
  ]
]

-- Revoke of a memory store and of its table give the same answer and leave the same table, also for
-- an id that neither has.
pub mem_revoke-table_of :
    (m : MemoryStore) (id : ℕ)
    → IsSequenced (table_of m)
    → sql_revoke id (table_of m) ≡ ((mem_revoke id m).0, table_of (mem_revoke id m).1)
unfolding mem_revoke sql_revoke
mem_revoke-table_of m id w = elim (revoke_first-rows 0 m.records m.next id w) [
  | inl (missed, never, rows) ↦ rw (mem_revoke, sql_revoke, missed, never, rows) refl
  | inr (recs, one, found, rows) ↦ rw (mem_revoke, sql_revoke, one, found, rows) refl
]
