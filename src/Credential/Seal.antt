-- ===== src/Credential/Seal.antt =====
-- Encryption at rest (credential/seal/seal.go). AES-GCM, base64 and the JSON text of the envelope are
-- arguments, with what the code relies on; texts stand for byte strings.
use daigate.Prelude.{
  Text, ℕ, codes, text_eq, length, ◌==◌, if◌then◌else◌, ◌||◌, not, Option, none, some, Result, ok,
  err, ◌>>=◌, ◌≡◌, refl, arith, text_eq_refl, Bool-cases, inl, inr,
}

pub record Envelope : Type 0 where
  pub v : ℕ
  pub alg : Text
  pub nonce : Text
  pub ct : Text

-- crypto/cipher, encoding/base64 and encoding/json, with what their documents promise: a value that
-- one side makes is what the other side reads.
pub record Cipher : Type 0 where
  pub gcm_seal : Text → Text → Text → Text
  pub gcm_open : Text → Text → Text → Option Text
  pub encode : Text → Text
  pub decode : Text → Option Text
  pub marshal : Envelope → Text
  pub unmarshal : Text → Option Envelope
  pub open-seal :
      (key nonce plain : Text) → gcm_open key nonce (gcm_seal key nonce plain) ≡ some plain
  pub decode-encode : (t : Text) → decode (encode t) ≡ some t
  pub unmarshal-marshal : (e : Envelope) → unmarshal (marshal e) ≡ some e

pub data SealError : Type 0 where
  invalid_base64 bad_key_length bad_envelope unsupported_envelope decrypt_failed : SealError

abbrev envelope_version : ℕ
envelope_version = 1

abbrev algorithm : Text
algorithm = codes "aes-256-gcm"

abbrev pub or_error : {A : Type 0} → SealError → Option A → Result SealError A
or_error e none = err e
or_error e (some a) = ok a

module _ (c : Cipher) where
  unfoldable pub parse_key : Text → Result SealError Text
  parse_key b64 = elim (c.decode b64) [
    | none ↦ err invalid_base64
    | some raw ↦ if not (length raw == 32) then err bad_key_length else ok raw
  ]

  -- The nonce is the random one of the call.
  unfoldable pub encrypt : Text → Text → Text → Result SealError Text
  encrypt key nonce plain =
      if not (length key == 32)
      then err bad_key_length
      else ok (
          c.marshal (record {
            v = envelope_version;
            alg = algorithm;
            nonce = c.encode nonce;
            ct = c.encode (c.gcm_seal key nonce plain);
          }))

  open_envelope : Text → Envelope → Result SealError Text
  open_envelope key env =
      if not (env.v == envelope_version) || not (text_eq env.alg algorithm)
      then err unsupported_envelope
      else or_error bad_envelope (c.decode env.nonce) >>= (λ nonce.
        or_error bad_envelope (c.decode env.ct)
        >>= (λ ct. or_error decrypt_failed (c.gcm_open key nonce ct)))

  unfoldable pub decrypt : Text → Text → Result SealError Text
  unfolding open_envelope
  decrypt key sealed =
      if not (length key == 32)
      then err bad_key_length
      else or_error bad_envelope (c.unmarshal sealed) >>= open_envelope key

  -- What Encrypt has sealed under a key, Decrypt opens under the same key, whatever nonce was drawn.
  pub decrypt-encrypt :
      (key nonce plain : Text) {sealed : Text}
      → encrypt key nonce plain ≡ ok sealed
      → decrypt key sealed ≡ ok plain
  unfolding encrypt decrypt open_envelope
  decrypt-encrypt key nonce plain {sealed} h = elim (Bool-cases (length key == 32)) [
    | inr bad ↦ absurd (ground (arith, bad, h))
    | inl good ↦
        let env : Envelope = record {
          v = envelope_version;
          alg = algorithm;
          nonce = c.encode nonce;
          ct = c.encode (c.gcm_seal key nonce plain);
        } in
        let same : sealed ≡ c.marshal env = ground (arith, good, h) in
        rw
          (
            same,
            good,
            c.unmarshal-marshal env,
            text_eq_refl algorithm,
            c.decode-encode nonce,
            c.decode-encode (c.gcm_seal key nonce plain),
            c.open-seal key nonce plain,
          )
          refl
  ]
