-- ===== src/Keyring/SqlStore/Laws.antt =====
-- What SQLStore guarantees: the order of its ids, creation, verification and revocation.
use daigate.Prelude.{
  Text, ℕ, ◌+◌, ◌<◌, ◌≤◌, ◌^◌, List, [], ◌∷◌, ◌++◌, ◌==◌, text_eq, text_eq_refl, if◌then◌else◌,
  ◌||◌, true, false, Option, none, some, ok, err, ◌≡◌, ◌≢◌, inl, inr, refl, sym, ◌∙◌, ap, arith,
  Bool-cases, Option-cases, Result-cases, subst,
}
use mathlib.Core.Path.{subst₃}
use daigate.Keyring.Argonhash.{Crypto, argon_seal, argon_verify, argon_verify-seal}
use daigate.Keyring.Secret.{format_secret, parse_key_id}
use daigate.Keyring.Secret.RoundTrip.{parse_key_id-format_secret}
use daigate.Keyring.Keys.{
  kind_static, kind_issued, CreateCall, expiry, is_expired, stored_scopes, invalid_gateway_key,
}
use daigate.Keyring.SqlStore.{
  KeyRow, SqlStore, find_row, set_hash, set_revoked, new_row, insert_key, sql_create, check_row,
  sql_verify,
}

-- The ids rise strictly from above `lo` and stay at most `hi`.
abbrev pub IsAscending : ℕ → List KeyRow → ℕ → Type 0
IsAscending lo [] hi = lo ≤ hi
IsAscending lo (r ∷ rs) hi = (lo < r.id) × IsAscending r.id rs hi

-- Ids are positive, distinct and in order, and the sequence is not behind them.
abbrev pub IsSequenced : SqlStore → Type 0
IsSequenced s = IsAscending 0 s.rows s.seq

IsAscending-append :
    (lo : ℕ) (rs : List KeyRow) (hi : ℕ) (r : KeyRow)
    → IsAscending lo rs hi
    → r.id ≡ hi + 1
    → IsAscending lo (rs ++ r ∷ []) (hi + 1)
IsAscending-append lo [] hi r h e = (omega arith, omega arith)
IsAscending-append lo (x ∷ rs) hi r h e = (h.0, IsAscending-append x.id rs hi r h.1 e)

IsAscending-set_hash :
    (lo id : ℕ) (hash : Text) (rs : List KeyRow) (hi : ℕ)
    → IsAscending lo rs hi
    → IsAscending lo (set_hash id hash rs) hi
unfolding set_hash
IsAscending-set_hash lo id hash [] hi h = h
IsAscending-set_hash lo id hash (r ∷ rs) hi h = elim (Bool-cases (r.id == id)) [
  | inl e ↦ rw e (h.0, IsAscending-set_hash r.id id hash rs hi h.1)
  | inr e ↦ rw e (h.0, IsAscending-set_hash r.id id hash rs hi h.1)
]

pub IsAscending-set_revoked :
    (lo id : ℕ) (rs : List KeyRow) (hi : ℕ)
    → IsAscending lo rs hi
    → IsAscending lo (set_revoked id rs) hi
unfolding set_revoked
IsAscending-set_revoked lo id [] hi h = h
IsAscending-set_revoked lo id (r ∷ rs) hi h = elim (Bool-cases (r.id == id)) [
  | inl e ↦ rw e (h.0, IsAscending-set_revoked r.id id rs hi h.1)
  | inr e ↦ rw e (h.0, IsAscending-set_revoked r.id id rs hi h.1)
]

pub lo-le-hi : (lo : ℕ) (rs : List KeyRow) (hi : ℕ) → IsAscending lo rs hi → lo ≤ hi
lo-le-hi lo [] hi h = h
lo-le-hi lo (r ∷ rs) hi h = omega (arith, lo-le-hi r.id rs hi h.1)

find_row-set_hash_fresh :
    (lo : ℕ) (rs : List KeyRow) (hi : ℕ) (r : KeyRow) (hash : Text)
    → IsAscending lo rs hi
    → r.id ≡ hi + 1
    → find_row (hi + 1) (set_hash (hi + 1) hash (rs ++ r ∷ [])) ≡ some (record r { hash = hash })
unfolding find_row set_hash
find_row-set_hash_fresh lo [] hi r hash h e = ground (arith, e)
find_row-set_hash_fresh lo (x ∷ rs) hi r hash h e =
    ground (arith, lo-le-hi x.id rs hi h.1, find_row-set_hash_fresh x.id rs hi r hash h.1 e)

find_row-set_hash_other :
    (rs : List KeyRow) (id j : ℕ) (r : KeyRow) (hash : Text)
    → r.id ≡ id
    → j ≢ id
    → find_row j (set_hash id hash (rs ++ r ∷ [])) ≡ find_row j rs
unfolding find_row set_hash
find_row-set_hash_other [] id j r hash e ne = ground (arith, e)
find_row-set_hash_other (x ∷ rs) id j r hash e ne =
    ground (arith, find_row-set_hash_other rs id j r hash e ne)

abbrev pub revoke_found : Option KeyRow → Option KeyRow
revoke_found none = none
revoke_found (some r) = some (record r { revoked = true })

pub find_row-set_revoked :
    (rs : List KeyRow) (id j : ℕ)
    → find_row j (set_revoked id rs)
      ≡ (if j == id then revoke_found (find_row j rs) else find_row j rs)
unfolding find_row set_revoked
find_row-set_revoked [] id j = ground arith
find_row-set_revoked (r ∷ rs) id j = ground (arith, find_row-set_revoked rs id j)

module _ (crypto : Crypto) (call : CreateCall) (s : SqlStore) where
  -- A successful creation: the id and the secret, and what each id finds afterwards.
  pub record IsCreated (exp : Option ℕ) (secret : Text) (id : ℕ) (s' : SqlStore) : Type 0 where
    pub next_id : id ≡ s.seq + 1
    pub secret_text : secret ≡ format_secret id call.tail
    pub found :
        find_row id s'.rows
        ≡ some (record (new_row call exp id) { hash = argon_seal crypto call.salt secret })
    pub others : (j : ℕ) → j ≢ id → find_row j s'.rows ≡ find_row j s.rows
    pub sequenced : IsSequenced s'

  insert_key-IsCreated :
      (exp : Option ℕ) {secret : Text} {id : ℕ} {s' : SqlStore}
      → IsSequenced s
      → insert_key crypto call s exp ≡ (ok (secret, id), s')
      → IsCreated exp secret id s'
  unfolding insert_key
  insert_key-IsCreated exp {secret} {id} {s'} w h =
      elim (Bool-cases (text_eq call.kind kind_static || text_eq call.kind kind_issued)) [
        | inr bad ↦ absurd (ground (arith, bad))
        | inl good ↦
            let h' = rw (good, insert_key) at h in
            let id' = s.seq + 1 in
            let key = format_secret id' call.tail in
            let row = new_row call exp id' in
            let hash = argon_seal crypto call.salt key in
            let same_id : id' ≡ id = ground (arith, h') in
            let same_key : key ≡ secret = ground (arith, h') in
            let made : IsCreated exp key id'
                (record { rows = set_hash id' hash (s.rows ++ row ∷ []); seq = id' }) =
              record {
                next_id = refl;
                secret_text = refl;
                found = find_row-set_hash_fresh 0 s.rows s.seq row hash w refl;
                others = λ j ne. find_row-set_hash_other s.rows id' j row hash refl ne;
                sequenced =
                    IsAscending-set_hash 0 id' hash (s.rows ++ row ∷ []) id'
                      (IsAscending-append 0 s.rows s.seq row w refl);
              } in
            subst₃ (IsCreated exp) same_key same_id (ap (λ p. p.1) h') made
      ]

  pub sql_create-IsCreated :
      {secret : Text} {id : ℕ} {s' : SqlStore}
      → IsSequenced s
      → sql_create crypto call s ≡ (ok (secret, id), s')
      → (exp : Option ℕ) × (expiry call ≡ ok exp) × IsCreated exp secret id s'
  unfolding sql_create
  sql_create-IsCreated w h = elim (Result-cases (expiry call)) [
    | inr (e, failed) ↦ absurd (ground (arith, failed))
    | inl (exp, fine) ↦ (exp, fine, insert_key-IsCreated exp w (rw (fine, sql_create) at h))
  ]

-- A new key is accepted: from its creation until its expiry, which Create has worked out from the
-- ttl, Verify of the secret gives the name, the id and the scopes that Create was given (no scopes
-- where the list was empty). The random tail is not empty and the id fits in an int64.
pub sql_verify-sql_create :
    (crypto : Crypto) (call : CreateCall) (s s' : SqlStore) (secret : Text) (id now c : ℕ)
    (tail : Text) (exp : Option ℕ)
    → IsSequenced s
    → s.seq + 1 < 2 ^ 63
    → call.tail ≡ c ∷ tail
    → expiry call ≡ ok exp
    → is_expired now exp ≡ false
    → sql_create crypto call s ≡ (ok (secret, id), s')
    → sql_verify crypto s' now secret
      ≡ ok (record { id = call.name; key_id = id; scopes = stored_scopes call.scopes })
unfolding sql_verify check_row
sql_verify-sql_create crypto call s s' secret id now c tail exp w small t worked live h =
    let (exp', fine, made) = sql_create-IsCreated crypto call s w h in
    let same : exp' ≡ exp = cc (worked, fine) in
    let read : parse_key_id secret ≡ some id =
      ap parse_key_id (made.secret_text ∙ ap (format_secret id) t)
      ∙ parse_key_id-format_secret id c tail (omega (arith, made.next_id))
          (omega (arith, made.next_id)) in
    let sealed : argon_verify crypto secret (argon_seal crypto call.salt secret) ≡ true =
      argon_verify-seal crypto call.salt secret secret ∙ text_eq_refl _ in
    let live' : is_expired now exp' ≡ false =
      subst (λ x. is_expired now x ≡ false) (sym same) live in
    ground (arith, read, made.found, live', sealed)

-- After its expiry a new key is refused.
pub sql_verify-sql_create_expired :
    (crypto : Crypto) (call : CreateCall) (s s' : SqlStore) (secret : Text) (id now c : ℕ)
    (tail : Text) (exp : Option ℕ)
    → IsSequenced s
    → s.seq + 1 < 2 ^ 63
    → call.tail ≡ c ∷ tail
    → expiry call ≡ ok exp
    → is_expired now exp ≡ true
    → sql_create crypto call s ≡ (ok (secret, id), s')
    → sql_verify crypto s' now secret ≡ err invalid_gateway_key
unfolding sql_verify check_row
sql_verify-sql_create_expired crypto call s s' secret id now c tail exp w small t worked late h =
    let (exp', fine, made) = sql_create-IsCreated crypto call s w h in
    let same : exp' ≡ exp = cc (worked, fine) in
    let read : parse_key_id secret ≡ some id =
      ap parse_key_id (made.secret_text ∙ ap (format_secret id) t)
      ∙ parse_key_id-format_secret id c tail (omega (arith, made.next_id))
          (omega (arith, made.next_id)) in
    let late' : is_expired now exp' ≡ true = subst (λ x. is_expired now x ≡ true) (sym same) late in
    ground (arith, read, made.found, late')

-- Creating a key changes the verification of no other: a text that is not read as the new id is
-- answered as before.
sql_verify-sql_create_other :
    (crypto : Crypto) (call : CreateCall) (s s' : SqlStore) (secret other : Text) (id now : ℕ)
    → IsSequenced s
    → sql_create crypto call s ≡ (ok (secret, id), s')
    → parse_key_id other ≢ some id
    → sql_verify crypto s' now other ≡ sql_verify crypto s now other
unfolding sql_verify
sql_verify-sql_create_other crypto call s s' secret other id now w h ne =
    let (exp, fine, made) = sql_create-IsCreated crypto call s w h in
    elim (Option-cases (parse_key_id other)) [
      | inl e ↦ ground (arith, e)
      | inr (j, e) ↦ let same = made.others j (λ k. ne (e ∙ ap some k)) in ground (arith, e, same)
    ]
