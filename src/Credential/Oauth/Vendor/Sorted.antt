-- ===== src/Credential/Oauth/Vendor/Sorted.antt =====
-- The order in which the vendors' profiles are listed.
use daigate.Prelude.{
  Text, List, [], ◌∷◌, ◌++◌, keys, text_le, text_le_total, is_from, IsSorted, eq-sort_strings,
  sort_strings, sort_strings-perm, sym, ◌∙◌, Bool, true, ◌≡◌, refl, ap, arith, Bool-cases, inl, inr,
  Permᴰ,
}
use mathlib.Core.List.{reverse_aux}
use mathlib.Core.List.Permᴰ as PermD
use daigate.Credential.Oauth.Vendor.{Modules, sink, sort_loop, oauth_providers}

sink_perm : (before : List Text) (x : Text) → Permᴰ (sink before x) (x ∷ before)
unfolding sink
sink_perm [] x = PermD.refl (x ∷ [])
sink_perm (y ∷ before) x = elim (Bool-cases (text_le y x)) [
  | inl stays ↦ rw (sink, stays) (PermD.refl (x ∷ y ∷ before))
  | inr moves ↦
      rw (sink, moves) (Permᴰ.trans (Permᴰ.cons refl (sink_perm before x)) (Permᴰ.swap refl refl))
]

sort_loop_perm : (before rest : List Text) → Permᴰ (sort_loop before rest) (before ++ rest)
unfolding sort_loop
sort_loop_perm before [] = Permᴰ.trans (PermD.reverse before) (PermD.symm (PermD.append-nil before))
sort_loop_perm before (x ∷ rest) = Permᴰ.trans (sort_loop_perm (sink before x) rest) (
    Permᴰ.trans (PermD.append_right rest (sink_perm before x))
      (PermD.symm (PermD.middle x before rest)))

-- A list that falls: each element is at least the next one.
is_over : Text → List Text → Bool
is_over y [] = true
is_over y (z ∷ l) = text_le z y

abbrev IsFalling : List Text → Type 0
IsFalling [] = Unit
IsFalling (y ∷ l) = (is_over y l ≡ true) × IsFalling l

sink-is_over :
    (y x : Text) (before : List Text)
    → is_over y before ≡ true
    → text_le x y ≡ true
    → is_over y (sink before x) ≡ true
unfolding sink is_over
sink-is_over y x [] h k = k
sink-is_over y x (z ∷ before) h k = ground (arith, h, k)

sink-IsFalling : (before : List Text) (x : Text) → IsFalling before → IsFalling (sink before x)
unfolding sink is_over
sink-IsFalling [] x h = (refl, tt)
sink-IsFalling (y ∷ before) x h = elim (Bool-cases (text_le y x)) [
  | inl stays ↦ rw (sink, stays) (stays, h)
  | inr moves ↦
      rw (sink, moves)
        (sink-is_over y x before h.0 (text_le_total y x moves), sink-IsFalling before x h.1)
]

-- The first element of a falling list fits before a sorted one.
joins : List Text → List Text → Bool
joins [] l = true
joins (y ∷ before) l = is_from y l

reverse-IsSorted :
    (before l : List Text)
    → IsFalling before
    → IsSorted l
    → joins before l ≡ true
    → IsSorted (reverse_aux before l)
unfolding is_over joins
reverse-IsSorted [] l f s j = s
reverse-IsSorted (y ∷ []) l f s j = (j, s)
reverse-IsSorted (y ∷ z ∷ before) l f s j = reverse-IsSorted (z ∷ before) (y ∷ l) f.1 (j, s) f.0

joins-nil : (before : List Text) → joins before [] ≡ true
unfolding joins
joins-nil [] = refl
joins-nil (y ∷ before) = refl

sort_loop-IsSorted : (before rest : List Text) → IsFalling before → IsSorted (sort_loop before rest)
unfolding sort_loop
sort_loop-IsSorted before [] h = reverse-IsSorted before [] h tt (joins-nil before)
sort_loop-IsSorted before (x ∷ rest) h =
    sort_loop-IsSorted (sink before x) rest (sink-IsFalling before x h)

keys-perm : {m n : Modules} → Permᴰ m n → Permᴰ (keys m) (keys n)
keys-perm Permᴰ.nil = Permᴰ.nil
keys-perm (Permᴰ.cons e h) = Permᴰ.cons (ap (λ p. p.0) e) (keys-perm h)
keys-perm (Permᴰ.swap e f) = Permᴰ.swap (ap (λ p. p.0) e) (ap (λ p. p.0) f)
keys-perm (Permᴰ.trans h k) = Permᴰ.trans (keys-perm h) (keys-perm k)

-- OAuthProviders lists the registered ids as sort.Strings would, so in one order whatever the order
-- in which Go iterates over the map of modules.
pub oauth_providers-eq-sort_strings :
    (modules other : Modules)
    → Permᴰ modules other
    → (oauth_providers modules ≡ sort_strings (keys modules))
      × (oauth_providers modules ≡ oauth_providers other)
unfolding oauth_providers
oauth_providers-eq-sort_strings modules other p =
    (sorted modules, sorted modules ∙ sort_strings-perm (keys-perm p) ∙ sym (sorted other))
  where
    sorted : (m : Modules) → sort_loop [] (keys m) ≡ sort_strings (keys m)
    sorted m =
        eq-sort_strings (keys m) (sort_loop [] (keys m)) (sort_loop-IsSorted [] (keys m) tt)
          (sort_loop_perm [] (keys m))
