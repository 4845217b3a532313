-- ===== src/Tests/Credentials.antt =====
-- Upstream credentials (credential/), with a toy cipher and a toy JSON codec.
use daigate.Prelude.{
  Text, ◌≤◌, ◌<◌, [], ◌∷◌, ◌++◌, length, take, drop, drop-append, codes, text_eq, text_eq_iff,
  trim_space, is_empty, lookup, insert, false, Option, none, some, ok, err, ◌≡◌, ◌≢◌, refl, ap,
  arith, pos,
}
use daigate.Http.{Header}
use daigate.Credential.Material.{Material, api_key}
use daigate.Credential.Inject.{Route, apply_route, substitute, material_values, authorization}
use daigate.Credential.Inject.Isolation.{IsSameBesideAuth, IsSameResult, apply_route-IsSame}
use daigate.Credential.Seal.{Envelope, Cipher, encrypt, decrypt, decrypt-encrypt}
use daigate.Credential.Payload.{Json, ApiPayload, empty_material}
use daigate.Credential.Store.{Memory, nil_dereference, new_memory, get, put_api_key, put, disable}
use daigate.Credential.Store.Readback.{get-put_api_key, get-put_other}
use daigate.Credential.Store.History.{
  put_api_key_op, disable_op, perform, run_op, run_ops, perform-IsStep, IsStep, get-run_ops,
  new_memory-IsConsistent,
}
use daigate.Credential.Policy.{capped, parse_ttl, hour, resolve_scopes, default_provision_policy}
use daigate.Credential.Policy.Caps.{parse_ttl-le}

pub take-append : (xs ys : Text) → take (length xs) (xs ++ ys) ≡ xs
take-append [] ys = refl
take-append (x ∷ xs) ys = ap (λ l. x ∷ l) (take-append xs ys)

abbrev pub write_envelope : Envelope → Text
write_envelope e = e.v ∷ length e.alg ∷ length e.nonce ∷ e.alg ++ (e.nonce ++ e.ct)

abbrev pub read_envelope : Text → Option Envelope
read_envelope [] = none
read_envelope (v ∷ []) = none
read_envelope (v ∷ a ∷ []) = none
read_envelope (v ∷ a ∷ n ∷ t) =
    some (record { v = v; alg = take a t; nonce = take n (drop a t); ct = drop n (drop a t) })

pub read-write_envelope : (e : Envelope) → read_envelope (write_envelope e) ≡ some e
read-write_envelope e =
    rw
      (
        take-append e.alg (e.nonce ++ e.ct),
        drop-append e.alg (e.nonce ++ e.ct),
        take-append e.nonce e.ct,
        drop-append e.nonce e.ct,
      )
      refl

abbrev pub cipher : Cipher
cipher = record {
  gcm_seal = λ key nonce plain. plain;
  gcm_open = λ key nonce ct. some ct;
  encode = λ t. t;
  decode = λ t. some t;
  marshal = write_envelope;
  unmarshal = read_envelope;
  open-seal = λ key nonce plain. refl;
  decode-encode = λ t. refl;
  unmarshal-marshal = read-write_envelope;
}

-- The type's text is always the same, so the toy codec keeps its length.
abbrev pub json : Json
json = record {
  marshal_api = λ p. length p.typ ∷ p.typ ++ p.key;
  unmarshal_api = λ t. read_api t;
  marshal_oauth = λ p. [];
  unmarshal_oauth = λ t. none;
  unmarshal-marshal_api = λ p. rw (take-append p.typ p.key, drop-append p.typ p.key) refl;
}
  where
    read_api : Text → Option ApiPayload
    read_api [] = none
    read_api (n ∷ t) = some (record { typ = take n t; key = drop n t })

abbrev pub key : Text
key = codes "0123456789abcdef0123456789abcdef"

abbrev pub nonce : Text
nonce = codes "n"

credentials : Unit {0}
unfolding encrypt decrypt put_api_key put get disable run_op run_ops new_memory codes text_eq lookup
    insert substitute material_values apply_route trim_space
credentials = tt

abbrev sealed_hi : Text
sealed_hi =
    write_envelope (record { v = 1; alg = codes "aes-256-gcm"; nonce = nonce; ct = codes "hi" })

encrypted : encrypt cipher key nonce (codes "hi") ≡ ok sealed_hi
unfolding encrypt codes
encrypted = refl

decrypt-encrypt_example : decrypt cipher key sealed_hi ≡ ok (codes "hi")
decrypt-encrypt_example = decrypt-encrypt cipher key nonce (codes "hi") encrypted

abbrev start : Memory
start = new_memory key 0

abbrev filled : Memory
filled = (put_api_key cipher json (codes "east") (codes "up") nonce 5 start).1

put_east : put_api_key cipher json (codes "east") (codes "up") nonce 5 start ≡ (ok 1, filled)
unfolding credentials
put_east = refl

get-put_api_key_example :
    get cipher json (codes "east") filled
    ≡ ok (record (empty_material (codes "east") api_key) { api_key = codes "up" })
get-put_api_key_example =
    get-put_api_key cipher json (codes "east") (codes "up") nonce 5 1 start filled
      (new_memory-IsConsistent cipher json key 0) put_east

put_west :
    put cipher json (codes "west") api_key [] (codes "p") nonce 6 start
    ≡ (ok 1, (put cipher json (codes "west") api_key [] (codes "p") nonce 6 start).1)
unfolding credentials
put_west = refl

east_ne_west : codes "east" ≢ codes "west"
unfolding codes
east_ne_west e = ground (arith, e)

get-put_other_example :
    get cipher json
      (codes "east")
      (put cipher json (codes "west") api_key [] (codes "p") nonce 6 start).1
    ≡ get cipher json (codes "east") start
get-put_other_example =
    get-put_other cipher json (codes "west") (codes "east") api_key [] (codes "p") nonce 6 1 start _
      (new_memory-IsConsistent cipher json key 0) put_west east_ne_west

perform-IsStep_example :
    IsStep cipher json start
      (perform cipher json (put_api_key_op (codes "east") (codes "up") nonce 7) start)
perform-IsStep_example =
    perform-IsStep cipher json (put_api_key_op (codes "east") (codes "up") nonce 7) start
      (new_memory-IsConsistent cipher json key 0)

get-run_ops_example :
    get cipher json (codes "east") (
      run_ops cipher json
        (put_api_key_op (codes "east") (codes "up") nonce 5 ∷ disable_op 1 [] 6 ∷ [])
        (new_memory key 0))
    ≢ err nil_dereference
get-run_ops_example =
    get-run_ops cipher json
      (put_api_key_op (codes "east") (codes "up") nonce 5 ∷ disable_op 1 [] 6 ∷ []) key
      (codes "east") 0

abbrev with_client_auth : Header
with_client_auth = (authorization, codes "Bearer client" ∷ []) ∷ []

same_beside : IsSameBesideAuth with_client_auth []
unfolding lookup
same_beside k a b = ground (arith, text_eq_iff authorization k, a)

abbrev route : Route
route = record { spec = []; preset = codes "bearer" }

abbrev east_material : Material
east_material = record (empty_material (codes "east") api_key) { api_key = codes "up" }

apply_route-IsSame_example :
    IsSameResult
      (apply_route (λ c. c) east_material with_client_auth route route)
      (apply_route (λ c. c) east_material [] route route)
apply_route-IsSame_example =
    apply_route-IsSame (λ c. c) east_material with_client_auth [] route route same_beside

provisioned : resolve_scopes default_provision_policy [] ≡ ok default_provision_policy.scopes
unfolding resolve_scopes
provisioned = refl

two_days :
    parse_ttl (λ t. some (pos 172_800_000_000_000)) (codes "48h") hour 86_400_000_000_000
    ≡ ok 86_400_000_000_000
unfolding parse_ttl capped codes trim_space
two_days = refl

given_ttl : is_empty (trim_space (codes "48h")) ≡ false
unfolding codes trim_space
given_ttl = refl

parse_ttl-le_example :
    (0 < 86_400_000_000_000) × (0 < 86_400_000_000_000 → 86_400_000_000_000 ≤ 86_400_000_000_000)
parse_ttl-le_example =
    parse_ttl-le (λ t. some (pos 172_800_000_000_000)) (codes "48h") hour 86_400_000_000_000
      86_400_000_000_000 given_ttl two_days
