-- ===== src/Prelude/Decimal.antt =====
-- strconv: printing a natural number in base 10 and reading a signed one.
use Prim.Native.Nat.{ℕ, zero, suc, ◌+◌, ◌-◌, ◌*◌, ◌/◌, ◌%◌, ◌^◌, ◌≤◌, ◌<◌}
use mathlib.Core.Path.{◌≡◌, refl, ◌∙◌, ap}
use mathlib.Core.Bool.{Bool, true, false, ◌&&◌}
use mathlib.Core.Logic.{◌≢◌, inl, inr}
use mathlib.Core.Option.{Option, none, some}
use mathlib.Core.List.{[], ◌∷◌}
use native.Mathlib.Omega.{arith}
use daigate.Prelude.Tests.{ltb, leb, ◌==◌, if◌then◌else◌, Bool-cases}
use daigate.Prelude.Lists.{All}
use daigate.Prelude.Strings.{Text}
use daigate.Prelude.Ints.{ℤ, pos, negsuc}

abbrev pub IsDigit : ℕ → Type 0
IsDigit c = (48 ≤ c) × (c < 58)

-- The digits of `n`, before those already written.
decimal_loop : ℕ → ℕ → Text → Text
decimal_loop zero n acc = acc
decimal_loop (suc f) n acc =
    let rest = decimal_loop f (n / 10) ((48 + n % 10) ∷ acc) in
    if n / 10 == 0 then (48 + n % 10) ∷ acc else rest

-- %d
unfoldable pub decimal : ℕ → Text
unfolding decimal_loop
decimal n = decimal_loop (suc n) n []

unfoldable pub parse_digits : ℕ → Text → Option ℕ
parse_digits v [] = some v
parse_digits v (c ∷ s) = if leb 48 c && ltb c 58 then parse_digits (v * 10 + (c - 48)) s else none

parse_unsigned : Text → Option ℕ
parse_unsigned [] = none
parse_unsigned (c ∷ s) = parse_digits 0 (c ∷ s)

-- The range of int64 on each side of zero.
in_range : Bool → Option ℕ → Option ℤ
in_range negative none = none
in_range false (some n) = if ltb n (2 ^ 63) then some (pos n) else none
in_range true (some zero) = some (pos 0)
in_range true (some (suc n)) = if ltb n (2 ^ 63) then some (negsuc n) else none

-- strconv.ParseInt(s, 10, 64)
unfoldable pub parse_int : Text → Option ℤ
unfolding parse_digits parse_unsigned in_range
parse_int [] = none
parse_int (c ∷ s) =
    if c == b'+'
    then in_range false (parse_unsigned s)
    else if c == b'-'
    then in_range true (parse_unsigned s)
    else in_range false (parse_unsigned (c ∷ s))

decimal_loop-digits : (f n : ℕ) (acc : Text) → All IsDigit acc → All IsDigit (decimal_loop f n acc)
unfolding decimal_loop
decimal_loop-digits zero n acc h = h
decimal_loop-digits (suc f) n acc h =
    let d : IsDigit (48 + n % 10) = (omega arith, omega arith) in
    let ih = decimal_loop-digits f (n / 10) ((48 + n % 10) ∷ acc) (d, h) in
    elim (Bool-cases (n / 10 == 0)) [ inl e ↦ rw e (d, h) | inr e ↦ rw e ih ]

pub decimal-digits : (n : ℕ) → All IsDigit (decimal n)
unfolding decimal
decimal-digits n = decimal_loop-digits (suc n) n [] tt

parse_digits-digit :
    (v d : ℕ) (s : Text) → d < 10 → parse_digits v ((48 + d) ∷ s) ≡ parse_digits (v * 10 + d) s
unfolding parse_digits
parse_digits-digit v d s h =
    let e : 48 + d - 48 ≡ d = omega arith in
    let low : leb 48 (48 + d) ≡ true = ground arith in
    let high : ltb (48 + d) 58 ≡ true = ground arith in rw (low, high, e)

parse_digits-decimal_loop :
    (f n : ℕ) (acc : Text) → n < f → parse_digits 0 (decimal_loop f n acc) ≡ parse_digits n acc
unfolding decimal_loop
parse_digits-decimal_loop zero n acc h = absurd (omega arith)
parse_digits-decimal_loop (suc f) n acc h = elim (Bool-cases (n / 10 == 0)) [
  | inl e ↦
      let small : 0 * 10 + n % 10 ≡ n = ground (arith, e) in
      rw e (parse_digits-digit 0 (n % 10) acc (omega arith) ∙ ap (λ v. parse_digits v acc) small)
  | inr e ↦
      let whole : n / 10 * 10 + n % 10 ≡ n = omega arith in
      let less : n / 10 < f = ground (arith, e) in
      rw e (
        parse_digits-decimal_loop f (n / 10) ((48 + n % 10) ∷ acc) less
        ∙ parse_digits-digit (n / 10) (n % 10) acc (omega arith)
        ∙ ap (λ v. parse_digits v acc) whole)
]

parse_int_of_digits :
    (s : Text) {n : ℕ}
    → All IsDigit s
    → n < 2 ^ 63
    → parse_digits 0 s ≡ some n
    → s ≢ []
    → parse_int s ≡ some (pos n)
unfolding parse_int
parse_int_of_digits [] d h e ne = absurd (ne refl)
parse_int_of_digits (c ∷ s) d h e ne = ground (arith, d.0)

decimal_loop-ne-nil : (f n c : ℕ) (acc : Text) → decimal_loop f n (c ∷ acc) ≢ []
unfolding decimal_loop
decimal_loop-ne-nil zero n c acc = cc
decimal_loop-ne-nil (suc f) n c acc =
    ground (arith, decimal_loop-ne-nil f (n / 10) (48 + n % 10) (c ∷ acc))

pub decimal-ne-nil : (n : ℕ) → decimal n ≢ []
unfolding decimal
decimal-ne-nil n = ground (arith, decimal_loop-ne-nil n (n / 10) (48 + n % 10) [])

-- What is printed reads back, up to the largest int64.
pub parse_int-decimal : (n : ℕ) → n < 2 ^ 63 → parse_int (decimal n) ≡ some (pos n)
unfolding parse_digits
parse_int-decimal n h =
    parse_int_of_digits (decimal n) (decimal-digits n) h
      (unfold decimal in parse_digits-decimal_loop (suc n) n [] (omega arith)) (decimal-ne-nil n)

in_range_bound : (neg : Bool) (o : Option ℕ) {n : ℕ} → in_range neg o ≡ some (pos n) → n < 2 ^ 63
unfolding in_range
in_range_bound neg none h = cc
in_range_bound false (some m) h = ground arith
in_range_bound true (some zero) h = ground arith
in_range_bound true (some (suc m)) h = ground arith

-- A number that is read is an int64.
pub parse_int_bound : (s : Text) {n : ℕ} → parse_int s ≡ some (pos n) → n < 2 ^ 63
unfolding parse_int
parse_int_bound [] h = cc
parse_int_bound (c ∷ s) {n} h = ground (
  arith,
  in_range_bound false (parse_unsigned s) {n = n},
  in_range_bound true (parse_unsigned s) {n = n},
  in_range_bound false (parse_unsigned (c ∷ s)) {n = n},
)
