-- ===== src/Keyring/Secret/RoundTrip.antt =====
-- A formatted key is read back as its id, and only texts of that form are read.
use daigate.Prelude.{
  Text, ℕ, zero, suc, ◌<◌, ◌^◌, [], ◌∷◌, ◌++◌, codes, has_prefix, has_prefix-append, trim_prefix,
  trim_prefix-append, decimal, decimal-digits, decimal-ne-nil, IsDigit, All, parse_int,
  parse_int-decimal, parse_int_bound, pos, negsuc, ℤ, positive, some, ◌≡◌, ◌≢◌, refl, arith,
  Option-cases, inl, inr, true, ap, ◌∙◌,
}
use daigate.Keyring.Secret.{prefix, format_secret, cut_dot, id_of, parse_key_id}

cut_dot_lem : (s tail : Text) → All IsDigit s → cut_dot (s ++ b'.' ∷ tail) ≡ some (s, tail)
unfolding cut_dot
cut_dot_lem [] tail d = ground arith
cut_dot_lem (c ∷ s) tail d = ground (arith, cut_dot_lem s tail d.1)

id_of-decimal :
    (s : Text) (n c : ℕ) (tail : Text)
    → s ≢ []
    → 0 < n
    → parse_int s ≡ some (pos n)
    → id_of (s, c ∷ tail) ≡ some n
unfolding id_of
id_of-decimal [] n c tail ne h e = absurd (ne refl)
id_of-decimal (d ∷ s) zero c tail ne h e = absurd (omega arith)
id_of-decimal (d ∷ s) (suc n) c tail ne h e = ground (arith, e)

dot : (tail : Text) → codes "." ++ tail ≡ b'.' ∷ tail
unfolding codes
dot tail = refl

formatted :
    (id : ℕ) (tail : Text) → trim_prefix (format_secret id tail) prefix ≡ decimal id ++ b'.' ∷ tail
unfolding format_secret
formatted id tail =
    trim_prefix-append prefix (decimal id ++ (codes "." ++ tail))
    ∙ ap (λ t. decimal id ++ t) (dot tail)

-- A key that Create has formatted is read back as its id, for every positive int64 and every tail
-- that is not empty.
pub parse_key_id-format_secret :
    (id c : ℕ) (tail : Text)
    → 0 < id
    → id < 2 ^ 63
    → parse_key_id (format_secret id (c ∷ tail)) ≡ some id
unfolding parse_key_id
parse_key_id-format_secret id c tail h k =
    let starts : has_prefix (format_secret id (c ∷ tail)) prefix ≡ true =
      unfold format_secret in has_prefix-append prefix (decimal id ++ (codes "." ++ c ∷ tail)) in
    let cut = cut_dot_lem (decimal id) (c ∷ tail) (decimal-digits id) in
    let read =
      id_of-decimal (decimal id) id c tail (decimal-ne-nil id) h (parse_int-decimal id k) in
    rw (starts, formatted id (c ∷ tail), cut, parse_key_id) read

positive_sound : (z : ℤ) {n : ℕ} → positive z ≡ some n → (z ≡ pos n) × (0 < n)
positive_sound (pos zero) h = cc
positive_sound (pos (suc m)) h = (cc, ground arith)
positive_sound (negsuc m) h = cc

id_of_bounds : (parts : Text × Text) {id : ℕ} → id_of parts ≡ some id → (0 < id) × (id < 2 ^ 63)
unfolding id_of
id_of_bounds ([], after) h = cc
id_of_bounds (d ∷ before, []) h = cc
id_of_bounds (d ∷ before, c ∷ after) {id} h = elim (Option-cases (parse_int (d ∷ before))) [
  | inl e ↦ cc (h, e)
  | inr (z, e) ↦
      let (same, low) = positive_sound z {n = id} (ground (arith, e)) in
      (low, parse_int_bound (d ∷ before) (e ∙ ap some same))
]

-- Whatever is read as an id is a positive int64, and the text has the prefix of a gateway key.
pub parse_key_id_bounds :
    (secret : Text) {id : ℕ}
    → parse_key_id secret ≡ some id
    → (has_prefix secret prefix ≡ true) × (0 < id) × (id < 2 ^ 63)
unfolding parse_key_id
parse_key_id_bounds secret {id} h = elim (Option-cases (cut_dot (trim_prefix secret prefix))) [
  | inl e ↦ absurd (ground (arith, e))
  | inr (parts, e) ↦
      let starts : has_prefix secret prefix ≡ true = ground (arith, e) in
      let (low, high) = id_of_bounds parts {id = id} (ground (arith, e)) in (starts, low, high)
]
