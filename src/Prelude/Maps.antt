-- ===== src/Prelude/Maps.antt =====
-- Go maps keyed by strings, as association lists: a list holds the entries in the order in which
-- one iteration meets them, and Go's order is any.
use mathlib.Core.Path.{◌≡◌, refl, sym, ap, ◌∙◌}
use mathlib.Core.Logic.{◌≢◌, inl, inr}
use mathlib.Core.Option.{Option, none, some}
use mathlib.Core.List.{List, [], ◌∷◌, Memᴰ, Permᴰ}
use mathlib.Core.List.Permᴰ as PermD
use native.Mathlib.Omega.{arith}
use daigate.Prelude.Tests.{if◌then◌else◌, Bool-cases, Option-cases}
use daigate.Prelude.Lists.{Memᴰ-perm}
use daigate.Prelude.Strings.{Text, text_eq, text_eq_iff}

abbrev pub Map {ℓ} : Type ℓ → Type ℓ
Map V = List (Text × V)

module _ {ℓ} {V : Type ℓ} where
  -- v, ok := m[k]
  unfoldable pub lookup : Text → Map V → Option V
  lookup k [] = none
  lookup k ((j, v) ∷ m) = if text_eq j k then some v else lookup k m

  -- m[k] = v
  unfoldable pub insert : Text → V → Map V → Map V
  insert k v [] = (k, v) ∷ []
  insert k v ((j, w) ∷ m) = if text_eq j k then (k, v) ∷ m else (j, w) ∷ insert k v m

  pub lookup-insert :
      (k j : Text) (v : V) (m : Map V)
      → lookup j (insert k v m) ≡ (if text_eq k j then some v else lookup j m)
  unfolding lookup insert
  lookup-insert k j v [] = refl
  lookup-insert k j v ((i, w) ∷ m) =
      ground (arith, text_eq_iff k j, text_eq_iff i k, text_eq_iff i j, lookup-insert k j v m)

  pub mem_of_lookup : (k : Text) (m : Map V) {v : V} → lookup k m ≡ some v → Memᴰ (k, v) m
  unfolding lookup
  mem_of_lookup k [] h = cc
  mem_of_lookup k ((j, w) ∷ m) h = elim (Bool-cases (text_eq j k)) [
    | inl e ↦ Memᴰ.head (cc ((text_eq_iff j k).0 e, h, e))
    | inr e ↦ Memᴰ.tail (mem_of_lookup k m (rw e at h))
  ]

  abbrev pub keys : Map V → List Text
  keys [] = []
  keys ((k, v) ∷ m) = k ∷ keys m

module _ {ℓ} {V : Type ℓ} where
  -- No key stands twice, as in any Go map.
  abbrev pub IsDistinct : Map V → Type ℓ
  IsDistinct [] = Unit
  IsDistinct ((k, v) ∷ m) = (lookup k m ≡ none) × IsDistinct m

  lookup-ne-none_of_mem : {k : Text} {v : V} {m : Map V} → Memᴰ (k, v) m → lookup k m ≢ none
  unfolding lookup
  lookup-ne-none_of_mem {k} (Memᴰ.head {x = (j, w)} e) h =
      cc ((text_eq_iff j k).1 (ap (λ p. p.0) (sym e)), h)
  lookup-ne-none_of_mem {k} (Memᴰ.tail {x = (j, w)} m) h =
      ground (arith, h, lookup-ne-none_of_mem m)

  pub lookup_of_mem :
      {k : Text} {v : V} {m : Map V} → IsDistinct m → Memᴰ (k, v) m → lookup k m ≡ some v
  unfolding lookup
  lookup_of_mem {k} d (Memᴰ.head {x = (j, w)} e) =
      rw ((text_eq_iff j k).1 (ap (λ p. p.0) (sym e))) (ap (λ p. some p.1) (sym e))
  lookup_of_mem {k} d (Memᴰ.tail {x = (j, w)} m) = elim (Bool-cases (text_eq j k)) [
    | inl e ↦ absurd (lookup-ne-none_of_mem m (rw (← (text_eq_iff j k).0 e) d.0))
    | inr e ↦ rw e (lookup_of_mem d.1 m)
  ]

  -- Lookups do not see the order of a map's entries.
  pub lookup-perm :
      {m n : Map V} → IsDistinct m → IsDistinct n → Permᴰ m n → (k : Text) → lookup k m ≡ lookup k n
  lookup-perm {m} {n} d e p k = elim (Option-cases (lookup k m)) [
    | inr (v, found) ↦ found ∙ sym (lookup_of_mem e (Memᴰ-perm p (mem_of_lookup k m found)))
    | inl missing ↦ elim (Option-cases (lookup k n)) [
      | inl missing' ↦ missing ∙ sym missing'
      | inr (v, found) ↦
          absurd
            (lookup-ne-none_of_mem (Memᴰ-perm (PermD.symm p) (mem_of_lookup k n found)) missing)
    ]
  ]

  -- delete(m, k)
  unfoldable pub delete : Text → Map V → Map V
  delete k [] = []
  delete k ((j, v) ∷ m) = let rest = delete k m in if text_eq j k then rest else (j, v) ∷ rest

  pub lookup-delete :
      (k j : Text) (m : Map V) → lookup j (delete k m) ≡ (if text_eq k j then none else lookup j m)
  unfolding lookup delete
  lookup-delete k j [] = ground arith
  lookup-delete k j ((i, w) ∷ m) =
      ground (arith, text_eq_iff k j, text_eq_iff i k, text_eq_iff i j, lookup-delete k j m)
