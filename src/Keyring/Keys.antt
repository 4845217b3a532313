-- ===== src/Keyring/Keys.antt =====
-- The records of ingress/keyring/keyring.go, and what its two stores share. A clock reading is an
-- argument; `none` among the scopes is Go's nil slice, and the column NULL.
use daigate.Prelude.{
  Text, ℕ, ◌+◌, ◌/◌, List, [], ◌∷◌, codes, text_eq, ltb, ℤ, positive, if◌then◌else◌, Bool, false,
  Option, none, some, Result, ok, err,
}

abbrev pub kind_static : Text
kind_static = codes "static"

abbrev pub kind_issued : Text
kind_issued = codes "issued"

pub record Principal : Type 0 where
  pub id : Text
  pub key_id : ℕ
  pub scopes : Option (List Text)

pub record KeyMeta : Type 0 where
  pub id : ℕ
  pub name : Text
  pub kind : Text
  pub expires_at : Option ℕ
  pub revoked : Bool
  pub scopes : Option (List Text)
  pub created_at : ℕ

pub data KeyError : Type 0 where
  invalid_gateway_key : KeyError
  issued_keys_require_ttl : KeyError
  gateway_key_not_found : ℕ → KeyError
  -- the CHECK of the table gateway_keys
  constraint_failed : KeyError

-- What the caller of Create gives, and what the world gives it: the two clock readings, in
-- nanoseconds, and the random bytes of the secret and of the salt.
pub record CreateCall : Type 0 where
  pub name : Text
  pub kind : Text
  pub ttl : ℤ
  pub scopes : List Text
  pub now : ℕ
  pub now_expiry : ℕ
  pub tail : Text
  pub salt : Text

-- time.Time.UnixMilli
abbrev pub unix_milli : ℕ → ℕ
unix_milli ns = ns / 1_000_000

-- The expiry of a key; `err` where a key that is not static has no ttl.
unfoldable pub expiry : CreateCall → Result KeyError (Option ℕ)
expiry call = elim (positive call.ttl) [
  | some ttl ↦ ok (some (unix_milli (call.now_expiry + ttl)))
  | none ↦ if text_eq call.kind kind_static then ok none else err issued_keys_require_ttl
]

-- exp.Valid && time.Now().UnixMilli() > exp.Int64
abbrev pub is_expired : ℕ → Option ℕ → Bool
is_expired now none = false
is_expired now (some t) = ltb t (unix_milli now)

-- `encodeScopes` and `decodeScopes`, and the copy that MemoryStore keeps: an empty list is nil.
-- The JSON text between the two is not modelled.
abbrev pub stored_scopes : List Text → Option (List Text)
stored_scopes [] = none
stored_scopes (s ∷ scopes) = some (s ∷ scopes)
