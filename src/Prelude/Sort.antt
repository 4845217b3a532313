-- ===== src/Prelude/Sort.antt =====
-- sort.Strings: the strings in increasing order, whatever order they came in.
use mathlib.Core.Path.{◌≡◌, refl, sym, ◌∙◌}
use mathlib.Core.Bool.{Bool, true, false, ◌&&◌, ◌||◌}
use mathlib.Core.Logic.{inl, inr}
use mathlib.Core.List.{List, [], ◌∷◌, Permᴰ}
use mathlib.Core.List.Permᴰ as PermD
use native.Mathlib.Omega.{arith}
use daigate.Prelude.Tests.{ltb, ◌==◌, if◌then◌else◌, Bool-cases}
use daigate.Prelude.Strings.{Text}

-- s <= t, by the first place where they differ
unfoldable pub text_le : Text → Text → Bool
text_le [] t = true
text_le (c ∷ s) [] = false
text_le (c ∷ s) (d ∷ t) = ltb c d || c == d && text_le s t

insert_sorted : Text → List Text → List Text
insert_sorted x [] = x ∷ []
insert_sorted x (y ∷ ys) = if text_le x y then x ∷ y ∷ ys else y ∷ insert_sorted x ys

unfoldable pub sort_strings : List Text → List Text
unfolding insert_sorted text_le
sort_strings [] = []
sort_strings (x ∷ xs) = insert_sorted x (sort_strings xs)

pub text_le_total : (s t : Text) → text_le s t ≡ false → text_le t s ≡ true
unfolding text_le
text_le_total [] t h = cc
text_le_total (c ∷ s) [] h = refl
text_le_total (c ∷ s) (d ∷ t) h = ground (arith, text_le_total s t)

text_le_antisym : (s t : Text) → text_le s t ≡ true → text_le t s ≡ true → s ≡ t
unfolding text_le
text_le_antisym [] [] h k = refl
text_le_antisym [] (d ∷ t) h k = cc
text_le_antisym (c ∷ s) [] h k = cc
text_le_antisym (c ∷ s) (d ∷ t) h k = ground (arith, text_le_antisym s t)

text_le_trans : (s t u : Text) → text_le s t ≡ true → text_le t u ≡ true → text_le s u ≡ true
unfolding text_le
text_le_trans [] t u h k = refl
text_le_trans (c ∷ s) [] u h k = cc
text_le_trans (c ∷ s) (d ∷ t) [] h k = cc
text_le_trans (c ∷ s) (d ∷ t) (e ∷ u) h k = ground (arith, text_le_trans s t u)

insert_sorted_comm :
    (x y : Text) (l : List Text)
    → insert_sorted x (insert_sorted y l) ≡ insert_sorted y (insert_sorted x l)
unfolding insert_sorted
insert_sorted_comm x y [] = ground (arith, text_le_total x y, text_le_antisym x y)
insert_sorted_comm x y (z ∷ l) = ground (
  arith,
  insert_sorted_comm x y l,
  text_le_total x y,
  text_le_total y x,
  text_le_antisym x y,
  text_le_trans x y z,
  text_le_trans y x z,
)

-- The order in which the strings came does not show in the result.
pub sort_strings-perm : {l m : List Text} → Permᴰ l m → sort_strings l ≡ sort_strings m
unfolding sort_strings
sort_strings-perm Permᴰ.nil = refl
sort_strings-perm (Permᴰ.cons e h) = cc (e, sort_strings-perm h)
sort_strings-perm (Permᴰ.swap {a} {b} {l = l} e f) =
    cc (e, f, insert_sorted_comm a b (sort_strings l))
sort_strings-perm (Permᴰ.trans h k) = sort_strings-perm h ∙ sort_strings-perm k

insert_sorted_perm : (x : Text) (l : List Text) → Permᴰ (insert_sorted x l) (x ∷ l)
unfolding insert_sorted
insert_sorted_perm x [] = Permᴰ.cons refl Permᴰ.nil
insert_sorted_perm x (y ∷ ys) = elim (Bool-cases (text_le x y)) [
  | inl e ↦ rw e (PermD.refl (x ∷ y ∷ ys))
  | inr e ↦ rw e (Permᴰ.trans (Permᴰ.cons refl (insert_sorted_perm x ys)) (Permᴰ.swap refl refl))
]

pub sort_strings_perm : (l : List Text) → Permᴰ (sort_strings l) l
unfolding sort_strings
sort_strings_perm [] = Permᴰ.nil
sort_strings_perm (x ∷ xs) =
    Permᴰ.trans (insert_sorted_perm x (sort_strings xs)) (Permᴰ.cons refl (sort_strings_perm xs))

abbrev pub is_from : Text → List Text → Bool
is_from x [] = true
is_from x (y ∷ l) = text_le x y

abbrev pub IsSorted : List Text → Type 0
IsSorted [] = Unit
IsSorted (x ∷ l) = (is_from x l ≡ true) × IsSorted l

sort_strings-IsSorted : (l : List Text) → IsSorted l → sort_strings l ≡ l
unfolding sort_strings insert_sorted
sort_strings-IsSorted [] h = refl
sort_strings-IsSorted (x ∷ []) h = refl
sort_strings-IsSorted (x ∷ y ∷ l) h = ground (arith, sort_strings-IsSorted (y ∷ l) h.1, h.0)

-- A sorted list is what sorting makes of any list of the same strings.
pub eq-sort_strings : (l m : List Text) → IsSorted m → Permᴰ m l → m ≡ sort_strings l
eq-sort_strings l m h p = sym (sort_strings-IsSorted m h) ∙ sort_strings-perm p
