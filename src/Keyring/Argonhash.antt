-- ===== src/Keyring/Argonhash.antt =====
-- Sealed secrets (ingress/argonhash/argonhash.go): the text "v1$<salt>$<sum>". Argon2 and base64
-- are not of this repository; they and what the code relies on are the record `Crypto`.
use daigate.Prelude.{
  Text, List, [], ◌∷◌, ◌++◌, codes, text_eq, text_eq_refl, if◌then◌else◌, ◌==◌, ◌&&◌, Bool, false,
  Option, none, some, ◌≡◌, ◌≢◌, refl, All, arith,
}

pub record Crypto : Type 0 where
  -- argon2.IDKey with the program's cost parameters, from a secret and a salt
  pub id_key : Text → Text → Text
  -- base64.StdEncoding
  pub encode : Text → Text
  pub decode : Text → Option Text
  pub decode-encode : (t : Text) → decode (encode t) ≡ some t
  pub encode-no_dollar : (t : Text) → All (λ c. c ≢ b'$') (encode t)

abbrev version : Text
version = codes "v1"

-- strings.Split at '$'
unfoldable pub split_dollar : Text → List Text
split_dollar [] = [] ∷ []
split_dollar (c ∷ s) = elim (split_dollar s) [
  | [] ↦ (c ∷ []) ∷ []
  | first ∷ rest ↦ if c == b'$' then [] ∷ first ∷ rest else (c ∷ first) ∷ rest
]

split_dollar_none : (s : Text) → All (λ c. c ≢ b'$') s → split_dollar s ≡ s ∷ []
unfolding split_dollar
split_dollar_none [] h = refl
split_dollar_none (c ∷ s) h = ground (arith, h.0, split_dollar_none s h.1)

split_dollar_first :
    (s t : Text) {first : Text} {rest : List Text}
    → All (λ c. c ≢ b'$') s
    → split_dollar t ≡ first ∷ rest
    → split_dollar (s ++ b'$' ∷ t) ≡ s ∷ first ∷ rest
unfolding split_dollar
split_dollar_first [] t h e = rw (e, split_dollar)
split_dollar_first (c ∷ s) t h e = ground (arith, h.0, split_dollar_first s t h.1 e)

module _ (crypto : Crypto) where
  -- `Seal`; the random salt is an argument.
  unfoldable pub argon_seal : Text → Text → Text
  argon_seal salt secret =
      version ++ (b'$' ∷ (crypto.encode salt ++ (b'$' ∷ crypto.encode (crypto.id_key secret salt))))

  compare_sum : Text → Option Text → Option Text → Bool
  compare_sum secret none want = false
  compare_sum secret (some salt) none = false
  compare_sum secret (some salt) (some want) = text_eq (crypto.id_key secret salt) want

  -- `Verify`
  verify_parts : Text → List Text → Bool
  verify_parts secret (v ∷ salt ∷ sum ∷ []) =
      text_eq v version && compare_sum secret (crypto.decode salt) (crypto.decode sum)
  verify_parts secret _ = false

  unfoldable pub argon_verify : Text → Text → Bool
  unfolding verify_parts compare_sum
  argon_verify secret sealed = verify_parts secret (split_dollar sealed)

  version-no_dollar : All (λ c. c ≢ b'$') version
  unfolding codes
  version-no_dollar = (omega arith, (omega arith, tt))

  split-argon_seal :
      (salt secret : Text)
      → split_dollar (argon_seal salt secret)
        ≡ version ∷ crypto.encode salt ∷ crypto.encode (crypto.id_key secret salt) ∷ []
  unfolding argon_seal
  split-argon_seal salt secret = split_dollar_first version _ version-no_dollar (
      split_dollar_first (crypto.encode salt) _ (crypto.encode-no_dollar salt)
        (split_dollar_none _ (crypto.encode-no_dollar (crypto.id_key secret salt))))

  -- A sealed value is accepted for exactly the secrets whose key under the salt is the same.
  pub argon_verify-seal :
      (salt secret given : Text)
      → argon_verify given (argon_seal salt secret)
        ≡ text_eq (crypto.id_key given salt) (crypto.id_key secret salt)
  unfolding argon_verify
  argon_verify-seal salt secret given = rw (
    split-argon_seal salt secret,
    verify_parts,
    text_eq_refl version,
    crypto.decode-encode salt,
    crypto.decode-encode (crypto.id_key secret salt),
    compare_sum,
  )
