-- ===== src/Prelude/Lists.antt =====
-- Lists: length and indexing over the native numbers, Boolean and typed quantifiers.
use Prim.Native.Nat.{ℕ, zero, suc, ◌+◌, ◌-◌, ◌<◌, ◌≤◌}
use mathlib.Core.Path.{◌≡◌, refl, ◌∙◌, ap}
use mathlib.Core.Logic.{inl, inr}
use mathlib.Core.Bool.{Bool, true, false, ◌&&◌, ◌||◌}
use mathlib.Core.Option.{Option, none, some}
use mathlib.Core.List.{List, [], ◌∷◌, ◌++◌, Memᴰ, Permᴰ}
use native.Mathlib.Omega.{arith}
use daigate.Prelude.Tests.{Bool-cases}

module _ {ℓ} {A : Type ℓ} where
  abbrev pub length : List A → ℕ
  length [] = 0
  length (x ∷ xs) = suc (length xs)

  abbrev pub get_elem? : List A → ℕ → Option A
  get_elem? [] i = none
  get_elem? (x ∷ xs) zero = some x
  get_elem? (x ∷ xs) (suc i) = get_elem? xs i

  abbrev pub drop : ℕ → List A → List A
  drop zero xs = xs
  drop (suc n) [] = []
  drop (suc n) (x ∷ xs) = drop n xs

  abbrev pub any : (A → Bool) → List A → Bool
  any p [] = false
  any p (x ∷ xs) = p x || any p xs

  abbrev pub all : (A → Bool) → List A → Bool
  all p [] = true
  all p (x ∷ xs) = p x && all p xs

  pub length-append : (xs ys : List A) → length (xs ++ ys) ≡ length xs + length ys
  length-append [] ys = omega arith
  length-append (x ∷ xs) ys = omega (arith, length-append xs ys)

  pub drop-append : (xs ys : List A) → drop (length xs) (xs ++ ys) ≡ ys
  drop-append [] ys = refl
  drop-append (x ∷ xs) ys = drop-append xs ys

  pub get_elem?-total :
      (xs : List A) (i : ℕ) → i < length xs → (x : A) × (get_elem? xs i ≡ some x) × Memᴰ x xs
  get_elem?-total [] i h = absurd (omega arith)
  get_elem?-total (x ∷ xs) zero h = (x, refl, Memᴰ.head refl)
  get_elem?-total (x ∷ xs) (suc i) h =
      let (y, e, m) = get_elem?-total xs i (omega arith) in (y, e, Memᴰ.tail m)

  -- A Boolean search that succeeds has a witness, and a witness makes it succeed.
  pub any-witness :
      (p : A → Bool) (xs : List A) → any p xs ≡ true → (x : A) × Memᴰ x xs × (p x ≡ true)
  any-witness p [] h = cc
  any-witness p (x ∷ xs) h = elim (Bool-cases (p x)) [
    | inl e ↦ (x, Memᴰ.head refl, e)
    | inr e ↦ let (y, m, q) = any-witness p xs (ground (arith, e, h)) in (y, Memᴰ.tail m, q)
  ]

  pub any-mem : (p : A → Bool) {x : A} {xs : List A} → Memᴰ x xs → p x ≡ true → any p xs ≡ true
  any-mem p (Memᴰ.head e) h = ground (arith, e, h)
  any-mem p (Memᴰ.tail m) h = ground (arith, any-mem p m h)

  pub all-mem : (p : A → Bool) {x : A} {xs : List A} → Memᴰ x xs → all p xs ≡ true → p x ≡ true
  all-mem p (Memᴰ.head e) h = ground (arith, e)
  all-mem p (Memᴰ.tail {x = y} {xs = ys} m) h = all-mem p m (ground arith)

module _ {ℓ κ} {A : Type ℓ} (P : A → Type κ) where
  abbrev pub All : List A → Type κ
  All [] = Unit
  All (x ∷ xs) = P x × All xs

  pub All-mem : {x : A} {xs : List A} → Memᴰ x xs → All xs → P x
  All-mem (Memᴰ.head e) h = rw e h.0
  All-mem (Memᴰ.tail m) h = All-mem m h.1

-- Two lists of one length, related place by place.
module _ {ℓ κ} {A B : Type ℓ} (R : A → B → Type κ) where
  pub data Forall₂ : List A → List B → Type (ℓ ⊔ κ) where
    nil : Forall₂ [] []
    cons :
        {x : A} {y : B} {xs : List A} {ys : List B}
        → R x y
        → Forall₂ xs ys
        → Forall₂ (x ∷ xs) (y ∷ ys)

  pub Forall₂-length : {xs : List A} {ys : List B} → Forall₂ xs ys → length xs ≡ length ys
  Forall₂-length nil = refl
  Forall₂-length (cons r h) = omega (arith, Forall₂-length h)

module _ {ℓ} {A : Type ℓ} where
  pub Memᴰ-perm : {x : A} {l m : List A} → Permᴰ l m → Memᴰ x l → Memᴰ x m
  Memᴰ-perm Permᴰ.nil m = elim m [ ]
  Memᴰ-perm (Permᴰ.cons e h) (Memᴰ.head f) = Memᴰ.head (f ∙ e)
  Memᴰ-perm (Permᴰ.cons e h) (Memᴰ.tail k) = Memᴰ.tail (Memᴰ-perm h k)
  Memᴰ-perm (Permᴰ.swap e f) (Memᴰ.head g) = Memᴰ.tail (Memᴰ.head (g ∙ e))
  Memᴰ-perm (Permᴰ.swap e f) (Memᴰ.tail (Memᴰ.head g)) = Memᴰ.head (g ∙ f)
  Memᴰ-perm (Permᴰ.swap e f) (Memᴰ.tail (Memᴰ.tail k)) = Memᴰ.tail (Memᴰ.tail k)
  Memᴰ-perm (Permᴰ.trans h k) m = Memᴰ-perm k (Memᴰ-perm h m)

module _ {ℓ} {A : Type ℓ} where
  abbrev pub take : ℕ → List A → List A
  take zero xs = []
  take (suc n) [] = []
  take (suc n) (x ∷ xs) = x ∷ take n xs

  pub take-all : (n : ℕ) (xs : List A) → length xs ≤ n → take n xs ≡ xs
  take-all zero [] h = refl
  take-all zero (x ∷ xs) h = absurd (omega arith)
  take-all (suc n) [] h = refl
  take-all (suc n) (x ∷ xs) h = ap (λ l. x ∷ l) (take-all n xs (omega arith))

  pub length-drop : (n : ℕ) (xs : List A) → length (drop n xs) ≡ length xs - n
  length-drop zero xs = omega arith
  length-drop (suc n) [] = omega arith
  length-drop (suc n) (x ∷ xs) = omega (arith, length-drop n xs)

  -- The element at an index, as a list of at most one.
  abbrev pub slot : List A → ℕ → List A
  slot [] i = []
  slot (x ∷ xs) zero = x ∷ []
  slot (x ∷ xs) (suc i) = slot xs i

  pub slot-take-drop :
      (i k : ℕ) (xs : List A)
      → i < length xs
      → slot xs i ++ take k (drop (suc i) xs) ≡ take (suc k) (drop i xs)
  slot-take-drop i k [] h = absurd (omega arith)
  slot-take-drop zero k (x ∷ xs) h = refl
  slot-take-drop (suc i) k (x ∷ xs) h = slot-take-drop i k xs (omega arith)

  pub slot_lem : (i : ℕ) (xs : List A) {x : A} → get_elem? xs i ≡ some x → slot xs i ≡ x ∷ []
  slot_lem i [] h = cc
  slot_lem zero (y ∷ xs) h = cc
  slot_lem (suc i) (y ∷ xs) h = slot_lem i xs h

module _ {ℓ} {A : Type ℓ} where
  pub any-or :
      (f g h : A → Bool) (xs : List A)
      → ((x : A) → h x ≡ (f x || g x))
      → any h xs ≡ (any f xs || any g xs)
  any-or f g h [] e = refl
  any-or f g h (x ∷ xs) e = ground (arith, e x, any-or f g h xs e)

  pub any-const_false : (f : A → Bool) (xs : List A) → ((x : A) → f x ≡ false) → any f xs ≡ false
  any-const_false f [] e = refl
  any-const_false f (x ∷ xs) e = ground (arith, e x, any-const_false f xs e)

  pub any-and :
      (b : Bool) (f h : A → Bool) (xs : List A)
      → ((x : A) → h x ≡ (b && f x))
      → any h xs ≡ (b && any f xs)
  any-and b f h [] e = ground arith
  any-and b f h (x ∷ xs) e = ground (arith, e x, any-and b f h xs e)

module _ {ℓ κ} {A : Type ℓ} (P : A → Type κ) where
  pub All-append : (xs ys : List A) → All P xs → All P ys → All P (xs ++ ys)
  All-append [] ys h k = k
  All-append (x ∷ xs) ys h k = (h.0, All-append xs ys h.1 k)
