-- ===== src/Tests/Keys.antt =====
-- Gateway keys (ingress/keyring/), with a toy hash in place of argon2 and base64.
use daigate.Prelude.{
  Text, ◌+◌, ◌-◌, [], ◌∷◌, ◌++◌, codes, text_eq, has_prefix, trim_prefix, trim_space, decimal,
  parse_int, pos, ◌||◌, if◌then◌else◌, true, false, some, ok, err, ◌≡◌, ◌≢◌, ◌↔◌, refl, arith, All,
}
use daigate.Keyring.Argonhash.{split_dollar, Crypto, argon_seal, argon_verify}
use daigate.Keyring.Scopes.{authorize, filter_models}
use daigate.Keyring.Secret.{format_secret, cut_dot, id_of, parse_key_id, bearer_token}
use daigate.Keyring.Secret.RoundTrip.{parse_key_id-format_secret}
use daigate.Keyring.Keys.{
  kind_static, kind_issued, Principal, invalid_gateway_key, CreateCall, expiry, stored_scopes,
}
use daigate.Keyring.SqlStore.{
  KeyRow, SqlStore, find_row, sql_create, sql_verify, sql_revoke, set_hash, check_row,
}
use daigate.Keyring.SqlStore.Laws.{IsSequenced, sql_verify-sql_create}
use daigate.Keyring.SqlStore.Revocation.{
  IsAccepted, sql_verify_iff, is_read_as, sql_verify-sql_revoke,
}
use daigate.Keyring.SqlStore.History.{create, revoke, run_ops, sql_verify-run_ops_revoked}
use daigate.Keyring.MemoryStore.History.{run_mem_ops, mem_verify-run_mem_ops}
use daigate.Keyring.MemoryStore.{MemoryStore, new_memory_store, mem_create, mem_verify}
use daigate.Keyring.MemoryStore.Refinement.{table_of}

keys : Unit {0}
unfolding sql_create sql_verify sql_revoke find_row set_hash check_row split_dollar parse_key_id
    cut_dot id_of format_secret argon_seal argon_verify expiry authorize filter_models bearer_token
    trim_space has_prefix trim_prefix text_eq decimal parse_int codes
keys = tt

-- A toy base64 over code points: each is moved beyond '$'.
unfoldable pub lift : Text → Text
lift [] = []
lift (c ∷ s) = (c + 37) ∷ lift s

unfoldable pub lower : Text → Text
lower [] = []
lower (c ∷ s) = (c - 37) ∷ lower s

pub lower-lift : (t : Text) → some (lower (lift t)) ≡ some t
unfolding lift lower
lower-lift [] = refl
lower-lift (c ∷ t) = let e : c + 37 - 37 ≡ c = omega arith in ground (arith, e, lower-lift t)

pub lift-no_dollar : (t : Text) → All (λ c. c ≢ b'$') (lift t)
unfolding lift
lift-no_dollar [] = tt
lift-no_dollar (c ∷ t) = (omega arith, lift-no_dollar t)

abbrev pub toy : Crypto
toy = record {
  id_key = λ secret salt. secret ++ salt;
  encode = lift;
  decode = λ t. some (lower t);
  decode-encode = lower-lift;
  encode-no_dollar = lift-no_dollar;
}

abbrev pub call : CreateCall
call = record {
  name = codes "ci";
  kind = kind_issued;
  ttl = pos 5_000_000_000;
  scopes = codes "model:mini" ∷ [];
  now = 1_000_000_000;
  now_expiry = 1_000_000_000;
  tail = codes "abc";
  salt = codes "s";
}

abbrev empty : SqlStore
empty = record { rows = []; seq = 0 }

abbrev pub secret : Text
secret = codes "sk-dg-1.abc"

abbrev pub row : KeyRow
row = record {
  id = 1;
  name = codes "ci";
  kind = kind_issued;
  hash = argon_seal toy (codes "s") (format_secret 1 (codes "abc"));
  expires_at = some 6000;
  scopes = some (codes "model:mini" ∷ []);
  revoked = false;
  created_at = 1000;
}

abbrev pub store : SqlStore
store = record { rows = row ∷ []; seq = 1 }

secret_text : format_secret 1 (codes "abc") ≡ secret
unfolding keys
secret_text = refl

call-expiry : expiry call ≡ ok (some 6000)
unfolding keys
call-expiry = refl

created : sql_create toy call empty ≡ (ok (format_secret 1 (codes "abc"), 1), store)
unfolding keys
created = refl

abbrev pub client : Principal
client = record { id = codes "ci"; key_id = 1; scopes = some (codes "model:mini" ∷ []) }

verified : sql_verify toy store 6_000_999_999 secret ≡ ok client
unfolding keys lift lower
verified = refl

expired : sql_verify toy store 6_001_000_000 secret ≡ err invalid_gateway_key
unfolding keys lift lower
expired = refl

tampered : sql_verify toy store 0 (codes "sk-dg-1.abd") ≡ err invalid_gateway_key
unfolding keys lift lower
tampered = refl

bearer : bearer_token (codes "Bearer  x ") ≡ ok (codes "x")
unfolding keys
bearer = refl

tail_text : call.tail ≡ b'a' ∷ codes "bc"
unfolding codes
tail_text = refl

sql_verify-sql_create_example :
    sql_verify toy store 2_000_000_000 (format_secret 1 (codes "abc"))
    ≡ ok (record { id = call.name; key_id = 1; scopes = stored_scopes call.scopes })
sql_verify-sql_create_example =
    sql_verify-sql_create toy call empty store (format_secret 1 (codes "abc")) 1 2_000_000_000 b'a'
      (codes "bc") (some 6000) (omega arith) (omega arith) tail_text call-expiry refl created

sql_verify_iff_example :
    (sql_verify toy store 0 secret ≡ ok client) ↔ IsAccepted toy store 0 secret client
sql_verify_iff_example = sql_verify_iff toy store 0 secret client

sql_verify-sql_revoke_example : sql_verify toy (sql_revoke 1 store).1 0 secret ≡ (
    if is_read_as 1 (parse_key_id secret)
    then err invalid_gateway_key
    else sql_verify toy store 0 secret)
sql_verify-sql_revoke_example = sql_verify-sql_revoke toy store 1 0 secret

found_one : find_row 1 store.rows ≡ some row
unfolding find_row
found_one = refl

read_one : parse_key_id secret ≡ some 1
unfolding keys
read_one = refl

sql_verify-run_ops_revoked_example :
    sql_verify toy (run_ops toy (create call ∷ revoke 2 ∷ []) (sql_revoke 1 store).1) 0 secret
    ≡ err invalid_gateway_key
sql_verify-run_ops_revoked_example =
    sql_verify-run_ops_revoked toy (create call ∷ revoke 2 ∷ []) store 1 0 secret row (omega arith)
      found_one read_one

parse_key_id-format_secret_example : parse_key_id (format_secret 42 (codes "x")) ≡ some 42
unfolding codes
parse_key_id-format_secret_example =
    parse_key_id-format_secret 42 b'x' [] (omega arith) (omega arith)

abbrev memory : MemoryStore
memory = (mem_create toy call new_memory_store).1

memory-IsSequenced : IsSequenced (table_of memory)
unfolding keys mem_create
memory-IsSequenced = (omega arith, omega arith)

admitted_kind : (text_eq call.kind kind_static || text_eq call.kind kind_issued) ≡ true
unfolding text_eq codes
admitted_kind = refl

mem_verify-run_mem_ops_example :
    mem_verify toy (run_mem_ops toy (create call ∷ revoke 1 ∷ []) memory) 0 secret
    ≡ sql_verify toy (run_ops toy (create call ∷ revoke 1 ∷ []) (table_of memory)) 0 secret
mem_verify-run_mem_ops_example =
    mem_verify-run_mem_ops toy (create call ∷ revoke 1 ∷ []) memory 0 secret memory-IsSequenced
      ((admitted_kind, some 6000, call-expiry), (tt, tt))
