-- ===== src/Keyring/MemoryStore.antt =====
-- MemoryStore (ingress/keyring/keyring.go). The field `scopes` of a record is the copy of the
-- scopes that Verify returns; that of its `meta` is the copy that List returns.
pub mod Refinement
pub mod History
use daigate.Prelude.{
  Text, ℕ, ◌+◌, List, [], ◌∷◌, ◌++◌, ◌==◌, if◌then◌else◌, ◌||◌, not, Bool, true, false, map, Option,
  none, some, Result, ok, err,
}
use daigate.Keyring.Argonhash.{Crypto, argon_seal, argon_verify}
use daigate.Keyring.Secret.{format_secret, parse_key_id}
use daigate.Keyring.Keys.{
  Principal, KeyMeta, KeyError, invalid_gateway_key, gateway_key_not_found, CreateCall, unix_milli,
  expiry, is_expired, stored_scopes,
}

pub record MemoryRecord : Type 0 where
  pub meta : KeyMeta
  pub sealed : Text
  pub scopes : Option (List Text)

pub record MemoryStore : Type 0 where
  pub records : List MemoryRecord
  pub next : ℕ

-- NewMemoryStore
abbrev pub new_memory_store : MemoryStore
new_memory_store = record { records = []; next = 0 }

abbrev pub new_record : CreateCall → Option ℕ → ℕ → Text → MemoryRecord
new_record call exp id sealed = record {
  meta = record {
    id = id;
    name = call.name;
    kind = call.kind;
    expires_at = exp;
    revoked = false;
    scopes = stored_scopes call.scopes;
    created_at = unix_milli call.now;
  };
  sealed = sealed;
  scopes = stored_scopes call.scopes;
}

module _ (crypto : Crypto) where
  -- The id is taken before anything can fail.
  unfoldable pub mem_create : CreateCall → MemoryStore → Result KeyError (Text × ℕ) × MemoryStore
  mem_create call m =
      let id = m.next + 1 in
      let secret = format_secret id call.tail in
      let sealed = argon_seal crypto call.salt secret in
      elim (expiry call) [
        | err e ↦ (err e, record m { next = id })
        | ok exp ↦ (
          ok (secret, id),
          record { records = m.records ++ new_record call exp id sealed ∷ []; next = id },
        )
      ]

  -- The loop of Verify.
  unfoldable pub verify_loop : List MemoryRecord → ℕ → ℕ → Text → Result KeyError Principal
  verify_loop [] now id secret = err invalid_gateway_key
  verify_loop (rec ∷ recs) now id secret =
      let rest = verify_loop recs now id secret in
      if not (rec.meta.id == id) || rec.meta.revoked
      then rest
      else if is_expired now rec.meta.expires_at
      then err invalid_gateway_key
      else if argon_verify crypto secret rec.sealed
      then ok (record { id = rec.meta.name; key_id = rec.meta.id; scopes = rec.scopes })
      else err invalid_gateway_key

  unfoldable pub mem_verify : MemoryStore → ℕ → Text → Result KeyError Principal
  mem_verify m now secret = elim (parse_key_id secret) [
    | none ↦ err invalid_gateway_key
    | some id ↦ verify_loop m.records now id secret
  ]

unfoldable pub mem_list : MemoryStore → List KeyMeta
mem_list m = map (λ rec. rec.meta) m.records

-- The loop of Revoke; `none` when it ends without a return.
unfoldable pub revoke_first : ℕ → List MemoryRecord → Option (List MemoryRecord)
revoke_first id [] = none
revoke_first id (rec ∷ recs) =
    let rest = revoke_first id recs in
    if rec.meta.id == id
    then some (record rec { meta = record rec.meta { revoked = true } } ∷ recs)
    else elim rest [ none ↦ none | some recs' ↦ some (rec ∷ recs') ]

unfoldable pub mem_revoke : ℕ → MemoryStore → Result KeyError Unit × MemoryStore
mem_revoke id m = elim (revoke_first id m.records) [
  | none ↦ (err (gateway_key_not_found id), m)
  | some recs ↦ (ok tt, record m { records = recs })
]
