-- ===== src/Keyring/Scopes/Visible.antt =====
-- A model is shown to a key exactly when the key may call it on one of its wires.
use daigate.Prelude.{
  Text, List, [], ◌∷◌, ◌++◌, codes, text_eq, text_eq_iff, is_empty, has_prefix, has_prefix-append,
  and_true, any-or, any-and, any-const_false, Bool-ext, sym, text_eq_refl, trim_prefix,
  trim_prefix-append, append-trim_prefix, trim_space, ◌&&◌, ◌||◌, Bool, true, false, any, Result,
  ok, err, ◌≡◌, refl, arith, Bool-cases, inl, inr, ap, ◌∙◌,
}
use mathlib.Core.Path.{ap₂}
use daigate.Keyring.Scopes.{
  scope_allows, authorize_loop, authorize, scope_shows, filter_models_loop, filter_models,
}

abbrev pub is_ok : {E A : Type 0} → Result E A → Bool
is_ok (ok a) = true
is_ok (err e) = false

abbrev wire_prefix : Text
wire_prefix = codes "wire:"

-- A scope names a wire by the prefix and the rest, or as a whole.
wire_scope :
    (s w : Text)
    → text_eq s (wire_prefix ++ w)
      ≡ (has_prefix s wire_prefix && text_eq w (trim_prefix s wire_prefix))
wire_scope s w = Bool-ext _ _ to from
  where
    to :
        text_eq s (wire_prefix ++ w) ≡ true
        → (has_prefix s wire_prefix && text_eq w (trim_prefix s wire_prefix)) ≡ true
    to h =
        let same = (text_eq_iff s (wire_prefix ++ w)).0 h in
        rw (same, has_prefix-append, trim_prefix-append) (text_eq_refl w)

    from :
        (has_prefix s wire_prefix && text_eq w (trim_prefix s wire_prefix)) ≡ true
        → text_eq s (wire_prefix ++ w) ≡ true
    from h =
        let (p, q) = and_true (has_prefix s wire_prefix) _ h in
        (text_eq_iff s (wire_prefix ++ w)).1 (
          sym (append-trim_prefix s wire_prefix p)
          ∙ ap (λ t. wire_prefix ++ t) (sym ((text_eq_iff w _).0 q)))

-- The base case of both tests: a scope that does not look at the wire.
abbrev open_scope : Text → Text → Bool
open_scope s model = (is_empty s || text_eq s (codes "*")) || text_eq s (codes "model:" ++ model)

scope_allows_closed :
    (s model v : Text)
    → open_scope s model ≡ false
    → scope_allows s model v ≡ (has_prefix s wire_prefix && text_eq v (trim_prefix s wire_prefix))
unfolding scope_allows
scope_allows_closed s model v h = ground (arith, wire_scope s v)

-- One scope shows the model exactly if it allows the model on one of the wires.
any-scope_allows :
    (s model w : Text) (ws : List Text)
    → any (λ v. scope_allows s model v) (w ∷ ws) ≡ scope_shows s model (w ∷ ws)
unfolding scope_shows
any-scope_allows s model w ws = elim (Bool-cases (open_scope s model)) [
  | inl e ↦ unfold scope_allows in ground arith
  | inr e ↦
      any-and (has_prefix s wire_prefix) (λ v. text_eq v (trim_prefix s wire_prefix))
        (λ v. scope_allows s model v) (w ∷ ws) (λ v. scope_allows_closed s model v e)
      ∙ ground arith
]

is_ok-authorize_loop :
    (s : Text) (scopes : List Text) (model v : Text)
    → is_ok (authorize_loop (s ∷ scopes) model v)
      ≡ (scope_allows (trim_space s) model v || is_ok (authorize_loop scopes model v))
unfolding authorize_loop
is_ok-authorize_loop s scopes model v = ground arith

filter_models_loop-eq-any :
    (scopes : List Text) (model w : Text) (ws : List Text)
    → filter_models_loop scopes model (w ∷ ws)
      ≡ any (λ v. is_ok (authorize_loop scopes model v)) (w ∷ ws)
unfolding filter_models_loop authorize_loop
filter_models_loop-eq-any [] model w ws = sym (any-const_false (λ v. false) (w ∷ ws) (λ v. refl))
filter_models_loop-eq-any (s ∷ scopes) model w ws =
    let each =
      any-or (λ v. scope_allows (trim_space s) model v) (λ v. is_ok (authorize_loop scopes model v))
        (λ v. is_ok (authorize_loop (s ∷ scopes) model v)) (w ∷ ws)
        (is_ok-authorize_loop s scopes model) in
    let shows = filter_models_loop scopes model (w ∷ ws) in
    let split : filter_models_loop (s ∷ scopes) model (w ∷ ws)
        ≡ (scope_shows (trim_space s) model (w ∷ ws) || shows) =
      ground arith in
    split
    ∙ sym (
        each
        ∙ ap₂ (λ a b. a || b) (any-scope_allows (trim_space s) model w ws)
            (sym (filter_models_loop-eq-any scopes model w ws)))

-- For a model with at least one wire the list shows the model to a key exactly when the key's
-- scopes authorize the model on one of its wires.
pub filter_models-eq-any :
    (scopes : List Text) (model w : Text) (ws : List Text)
    → filter_models scopes model (w ∷ ws) ≡ any (λ v. is_ok (authorize scopes model v)) (w ∷ ws)
unfolding filter_models authorize
filter_models-eq-any [] model w ws = refl
filter_models-eq-any (s ∷ scopes) model w ws = filter_models_loop-eq-any (s ∷ scopes) model w ws
