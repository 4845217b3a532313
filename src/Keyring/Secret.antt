-- ===== src/Keyring/Secret.antt =====
-- The text of a gateway key, "sk-dg-<id>.<tail>", and the bearer header that carries it
-- (ingress/keyring/keyring.go). The random tail is an argument.
pub mod RoundTrip
use daigate.Prelude.{
  Text, ℕ, ◌<◌, ◌^◌, List, [], ◌∷◌, ◌++◌, codes, has_prefix, trim_prefix, trim_space, is_empty,
  decimal, parse_int, pos, negsuc, positive, ◌==◌, if◌then◌else◌, Option, none, some, Result, ok,
  err,
}

abbrev pub prefix : Text
prefix = codes "sk-dg-"

unfoldable pub format_secret : ℕ → Text → Text
format_secret id tail = prefix ++ (decimal id ++ (codes "." ++ tail))

-- What stands before and after the first dot.
unfoldable pub cut_dot : Text → Option (Text × Text)
cut_dot [] = none
cut_dot (c ∷ s) = elim (cut_dot s) [
  | none ↦ if c == b'.' then some ([], s) else none
  | some (before, after) ↦ if c == b'.' then some ([], s) else some (c ∷ before, after)
]

unfoldable pub id_of : Text × Text → Option ℕ
id_of ([], after) = none
id_of (d ∷ before, []) = none
id_of (d ∷ before, c ∷ after) = elim (parse_int (d ∷ before)) [ none ↦ none | some n ↦ positive n ]

unfoldable pub parse_key_id : Text → Option ℕ
parse_key_id secret =
    if has_prefix secret prefix
    then elim (cut_dot (trim_prefix secret prefix)) [ none ↦ none | some parts ↦ id_of parts ]
    else none

pub data TokenError : Type 0 where
  missing_bearer empty_bearer : TokenError

-- `bearerToken`; the argument is the Authorization header ("" if absent).
unfoldable pub bearer_token : Text → Result TokenError Text
bearer_token h =
    if has_prefix h (codes "Bearer ")
    then (let t = trim_space (trim_prefix h (codes "Bearer ")) in
        if is_empty t then err empty_bearer else ok t)
    else err missing_bearer
