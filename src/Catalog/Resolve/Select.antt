-- ===== src/Catalog/Resolve/Select.antt =====
-- The choice of the modality: which name is chosen, and that Go's map order does not matter.
use daigate.Prelude.{
  Bool, Text, Map, List, [], ◌∷◌, codes, text_eq, text_eq_iff, is_empty, trim_space, lookup,
  if◌then◌else◌, ◌&&◌, subst, sort_strings, sort_strings_perm, sort_strings-perm, Memᴰ-perm, some,
  ok, err, ◌≡◌, ◌⊎◌, inl, inr, refl, true, false, arith, Bool-cases, Option-cases, Memᴰ, Permᴰ,
  lookup_of_mem, lookup-perm, mem_of_lookup, IsDistinct, ok_of_bind, All, All-mem, ap, sym,
}
use mathlib.Core.List.Permᴰ as PermD
use mathlib.Core.List.Memᴰ as MemD
use daigate.Catalog.Document.{Modality, Model, Document, is_nil}
use daigate.Catalog.Routing.{
  has_modality, only_search_siblings, default_modality, pick_modality, multiple_modalities,
}
use daigate.Catalog.Resolve.{wire_modalities, modality_in, select_modality}
use mathlib.Core.Path.{subst₂}

mem_of_has_modality :
    (names : List Text) (name : Text) → has_modality names name ≡ true → Memᴰ name names
unfolding has_modality
mem_of_has_modality [] name h = cc
mem_of_has_modality (c ∷ cs) name h = elim (Bool-cases (text_eq c name)) [
  | inl e ↦ Memᴰ.head (sym ((text_eq_iff c name).0 e))
  | inr e ↦ Memᴰ.tail (mem_of_has_modality cs name (rw e at h))
]

module _ (names : List Text) where
  mem_of_chat :
      {name : Text}
      → (if has_modality names (codes "chat") && only_search_siblings names
          then ok (codes "chat")
          else err (multiple_modalities names))
        ≡ ok name
      → Memᴰ name names
  mem_of_chat h = elim (Bool-cases (has_modality names (codes "chat"))) [
    | inl e ↦ subst (λ n. Memᴰ n names) (ground arith) (mem_of_has_modality names (codes "chat") e)
    | inr e ↦ absurd (ground arith)
  ]

mem_of_default_modality :
    (names : List Text) {name : Text} → default_modality names ≡ ok name → Memᴰ name names
unfolding default_modality
mem_of_default_modality [] h = mem_of_chat [] h
mem_of_default_modality (n ∷ []) h = Memᴰ.head (ground arith)
mem_of_default_modality (n ∷ m ∷ ns) h = mem_of_chat (n ∷ m ∷ ns) h

-- The chosen name is a candidate, and is the hint where there is one.
pub pick_modality_sound :
    (names : List Text) (hint : Text) {name : Text}
    → pick_modality names hint ≡ ok name
    → Memᴰ name names × ((trim_space hint ≡ []) ⊎ (name ≡ trim_space hint))
unfolding pick_modality
pick_modality_sound names hint {name} h = elim (Bool-cases (is_empty (trim_space hint))) [
  | inl e ↦ (mem_of_default_modality names (ground arith), inl (ground arith))
  | inr e ↦ elim (Bool-cases (has_modality names (trim_space hint))) [
    | inl f ↦
        let same : trim_space hint ≡ name = ground arith in
        (
          subst (λ n. Memᴰ n names) same (mem_of_has_modality names (trim_space hint) f),
          inr (sym same),
        )
    | inr f ↦ absurd (ground arith)
  ]
]

-- A listed name is that of a modality with the wire.
mem_of_wire_modalities :
    (ms : Map Modality) (wire : Text) {name : Text}
    → Memᴰ name (wire_modalities ms wire)
    → (md : Modality) × Memᴰ (name, md) ms × (md.wire ≡ wire)
unfolding wire_modalities
mem_of_wire_modalities [] wire m = elim m [ ]
mem_of_wire_modalities ((n, md) ∷ ms) wire m = elim (Bool-cases (text_eq md.wire wire)) [
  | inl e ↦ elim (MemD.cases_cons (rw e at m)) [
    | inl same ↦ (md, Memᴰ.head (ap (λ k. (k, md)) same), (text_eq_iff md.wire wire).0 e)
    | inr later ↦ let (md', m', w) = mem_of_wire_modalities ms wire later in (md', Memᴰ.tail m', w)
  ]
  | inr e ↦ let (md', m', w) = mem_of_wire_modalities ms wire (rw e at m) in (md', Memᴰ.tail m', w)
]

pub record IsSelected (doc : Document) (model wire hint name : Text) (md : Modality) : Type 0 where
  pub entry : Model
  pub model_found : lookup model doc.models ≡ some entry
  pub modality_found : lookup name entry.modalities ≡ some md
  pub wire_fits : md.wire ≡ wire
  pub hint_followed : (trim_space hint ≡ []) ⊎ (name ≡ trim_space hint)

modality_in_sound :
    (ms : Map Modality) (model wire hint : Text) {name : Text} {md : Modality}
    → IsDistinct ms
    → modality_in ms model wire hint ≡ ok (name, md)
    → (lookup name ms ≡ some md)
      × (md.wire ≡ wire)
      × ((trim_space hint ≡ []) ⊎ (name ≡ trim_space hint))
unfolding modality_in
modality_in_sound ms model wire hint {name} {md} d h =
    elim (Bool-cases (is_nil (sort_strings (wire_modalities ms wire)))) [
      | inl nothing ↦ absurd (ground (arith, nothing))
      | inr something ↦
          let names = sort_strings (wire_modalities ms wire) in
          let (n, picked, e) = ok_of_bind (pick_modality names hint) _ (rw something at h) in
          let (candidate, followed) = pick_modality_sound names hint picked in
          let (md', listed, fits) =
            mem_of_wire_modalities ms wire
              (Memᴰ-perm (sort_strings_perm (wire_modalities ms wire)) candidate) in
          let found : lookup n ms ≡ some md' = lookup_of_mem d listed in
          let same_name : n ≡ name = cc e in
          let same_md : md' ≡ md = ground (arith, e, found) in
          (
            subst₂ (λ k w. lookup k ms ≡ some w) same_name same_md found,
            subst (λ w. w.wire ≡ wire) same_md fits,
            subst (λ k. (trim_space hint ≡ []) ⊎ (k ≡ trim_space hint)) same_name followed,
          )
    ]

-- The modality that a resolution chooses has the wire and stands under the model, and it is the
-- hinted one where the request has a hint.
pub select_modality-IsSelected :
    (doc : Document) (model wire hint : Text) {name : Text} {md : Modality}
    → All (λ e. IsDistinct e.1.modalities) doc.models
    → select_modality doc model wire hint ≡ ok (name, md)
    → IsSelected doc model wire hint name md
unfolding select_modality
select_modality-IsSelected doc model wire hint {name} {md} d h =
    elim (Option-cases (lookup model doc.models)) [
      | inl missing ↦ absurd (ground (arith, missing))
      | inr (m, found) ↦
          let (listed, fits, followed) =
            modality_in_sound m.modalities model wire hint
              (All-mem (λ e. IsDistinct e.1.modalities) (mem_of_lookup model doc.models found) d)
              (rw (found, select_modality) at h) in
          record {
            entry = m;
            model_found = found;
            modality_found = listed;
            wire_fits = fits;
            hint_followed = followed;
          }
    ]

-- The names with the wire, in another order of the map, are the same names in another order.
wire_modalities-perm :
    {ms ns : Map Modality} (wire : Text)
    → Permᴰ ms ns
    → Permᴰ (wire_modalities ms wire) (wire_modalities ns wire)
unfolding wire_modalities
wire_modalities-perm wire Permᴰ.nil = Permᴰ.nil
wire_modalities-perm wire (Permᴰ.cons {a = (n, md)} e h) =
    rw (← e) (elim (Bool-cases (text_eq md.wire wire)) [
      | inl t ↦ rw t (Permᴰ.cons refl (wire_modalities-perm wire h))
      | inr t ↦ rw t (wire_modalities-perm wire h)
    ])
wire_modalities-perm wire (Permᴰ.swap {a = (n, md)} {b = (k, nd)} {l = l} e f) =
    rw (← e, ← f) (swapped (text_eq md.wire wire) (text_eq nd.wire wire))
  where
    swapped :
        (b c : Bool)
        → Permᴰ
            (if b
              then n ∷ (if c then k ∷ wire_modalities l wire else wire_modalities l wire)
              else (if c then k ∷ wire_modalities l wire else wire_modalities l wire))
            (if c
              then k ∷ (if b then n ∷ wire_modalities l wire else wire_modalities l wire)
              else (if b then n ∷ wire_modalities l wire else wire_modalities l wire))
    swapped true true = Permᴰ.swap refl refl
    swapped true false = PermD.refl _
    swapped false true = PermD.refl _
    swapped false false = PermD.refl _
wire_modalities-perm wire (Permᴰ.trans h k) =
    Permᴰ.trans (wire_modalities-perm wire h) (wire_modalities-perm wire k)

-- Go iterates over a map in a random order: the modality that is chosen, or the error, is the
-- same for every order of the model's modalities.
pub modality_in-perm :
    (ms ns : Map Modality) (model wire hint : Text)
    → IsDistinct ms
    → IsDistinct ns
    → Permᴰ ms ns
    → modality_in ms model wire hint ≡ modality_in ns model wire hint
unfolding modality_in
modality_in-perm ms ns model wire hint d e p =
    let names = sort_strings-perm (wire_modalities-perm wire p) in
    let entries : (k : Text) → lookup k ms ≡ lookup k ns = lookup-perm d e p in
    simp (names, entries)
