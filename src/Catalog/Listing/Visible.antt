-- ===== src/Catalog/Listing/Visible.antt =====
-- A key sees in the model list what it may call.
use daigate.Prelude.{
  keys, Text, Map, List, [], ◌∷◌, text_eq, text_eq_iff, lookup, insert, sort_strings,
  sort_strings_perm, any, ◌&&◌, ◌||◌, Bool, true, Option, some, ◌≡◌, refl, ◌∙◌, ap, arith,
  Bool-cases, inl, inr, Permᴰ,
}
use daigate.Catalog.Document.{Modality, Model, Catalog, no_model}
use daigate.Catalog.Routing.{or_zero}
use daigate.Catalog.Listing.{
  ModelListItem, seen_wires, model_wires, is_shown, list_loop, list_models_in, list_models_for,
}
use daigate.Keyring.Scopes.{authorize, filter_models}
use daigate.Keyring.Scopes.Visible.{is_ok, filter_models-eq-any}

-- The list has an item of this id.
abbrev pub is_listed : Text → List ModelListItem → Bool
is_listed id items = any (λ item. text_eq item.id id) items

any-keys_insert :
    (f : Text → Bool) (k : Text) (b : Bool) (m : Map Bool)
    → any f (keys (insert k b m)) ≡ (f k || any f (keys m))
unfolding insert
any-keys_insert f k b [] = refl
any-keys_insert f k b ((j, c) ∷ m) = elim (Bool-cases (text_eq j k)) [
  | inl e ↦ let same : f j ≡ f k = ap f ((text_eq_iff j k).0 e) in ground (arith, e, same)
  | inr e ↦ ground (arith, e, any-keys_insert f k b m)
]

any-seen_wires :
    (f : Text → Bool) (ms : Map Modality) (seen : Map Bool)
    → any f (keys (seen_wires ms seen)) ≡ (any f (keys seen) || any (λ e. f e.1.wire) ms)
unfolding seen_wires
any-seen_wires f [] seen = ground arith
any-seen_wires f ((name, md) ∷ ms) seen =
    ground
      (arith, any-seen_wires f ms (insert md.wire true seen), any-keys_insert f md.wire true seen)

any-perm : (f : Text → Bool) {l m : List Text} → Permᴰ l m → any f l ≡ any f m
any-perm f Permᴰ.nil = refl
any-perm f (Permᴰ.cons e h) = ground (arith, ap f e, any-perm f h)
any-perm f (Permᴰ.swap e g) = ground (arith, ap f e, ap f g)
any-perm f (Permᴰ.trans h k) = any-perm f h ∙ any-perm f k

is_listed-list_loop :
    (models : Map Model) (scopes : Option (List Text)) (ids : List Text) (id : Text)
    → is_listed id (list_loop models scopes ids)
      ≡ (any (λ j. text_eq j id) ids && is_shown scopes id (or_zero no_model (lookup id models)))
unfolding list_loop
is_listed-list_loop models scopes [] id = refl
is_listed-list_loop models scopes (j ∷ ids) id =
    let ih = is_listed-list_loop models scopes ids id in
    elim (Bool-cases (text_eq j id)) [
      | inr e ↦ elim (Bool-cases (is_shown scopes j (or_zero no_model (lookup j models)))) [
        | inl s ↦ ground (arith, e, s, ih)
        | inr s ↦ ground (arith, e, s, ih)
      ]
      | inl e ↦
          let same : is_shown scopes j (or_zero no_model (lookup j models))
              ≡ is_shown scopes id (or_zero no_model (lookup id models)) =
            ap (λ k. is_shown scopes k (or_zero no_model (lookup k models)))
              ((text_eq_iff j id).0 e) in
          elim (Bool-cases (is_shown scopes id (or_zero no_model (lookup id models)))) [
            | inl s ↦ ground (arith, e, s, same, ih)
            | inr s ↦ ground (arith, e, s, same, ih)
          ]
    ]

any-keys_of_lookup :
    (models : Map Model) (id : Text) {m : Model}
    → lookup id models ≡ some m
    → any (λ j. text_eq j id) (keys models) ≡ true
unfolding lookup
any-keys_of_lookup [] id h = cc
any-keys_of_lookup ((j, m) ∷ models) id h = elim (Bool-cases (text_eq j id)) [
  | inl e ↦ ground (arith, e)
  | inr e ↦ ground (arith, e, any-keys_of_lookup models id (rw e at h))
]

filter_models-eq-any_of :
    (scopes : List Text) (id : Text) (ws : List Text)
    → any (λ w. true) ws ≡ true
    → filter_models scopes id ws ≡ any (λ w. is_ok (authorize scopes id w)) ws
filter_models-eq-any_of scopes id [] h = cc
filter_models-eq-any_of scopes id (w ∷ ws) h = filter_models-eq-any scopes id w ws

any-model_wires :
    (f : Text → Bool) (m : Model) → any f (model_wires m) ≡ any (λ e. f e.1.wire) m.modalities
unfolding model_wires
any-model_wires f m = any-seen_wires f m.modalities []

-- A model of the document that has a modality is on a key's list exactly if the key's scopes
-- authorise one of the model's wires: every listed model can be called, and every model that can
-- be called is listed.
pub list_models_for-eq-any :
    (c : Catalog) (scopes : List Text) (id name : Text) (md : Modality) (ms : Map Modality)
    → lookup id c.doc.models ≡ some (record { modalities = (name, md) ∷ ms })
    → is_listed id (list_models_for c (some scopes)).items
      ≡ any (λ e. is_ok (authorize scopes id e.1.wire)) ((name, md) ∷ ms)
unfolding list_models_for list_models_in is_shown
list_models_for-eq-any c scopes id name md ms known =
    let m : Model = record { modalities = (name, md) ∷ ms } in
    let models = c.doc.models in
    let there =
      any-perm (λ j. text_eq j id) (sort_strings_perm (keys models))
      ∙ any-keys_of_lookup models id known in
    let listed : is_listed id (list_models_for c (some scopes)).items
        ≡ filter_models scopes id (model_wires m) =
      is_listed-list_loop models (some scopes) (sort_strings (keys models)) id
      ∙ rw (there, known) refl in
    listed
    ∙ filter_models-eq-any_of scopes id (model_wires m) (any-model_wires (λ w. true) m)
    ∙ any-model_wires (λ w. is_ok (authorize scopes id w)) m
