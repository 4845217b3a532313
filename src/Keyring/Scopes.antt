-- ===== src/Keyring/Scopes.antt =====
-- The scopes of a gateway key (ingress/keyring/scopes.go).
pub mod Visible
use daigate.Prelude.{
  Text, List, [], ◌∷◌, ◌++◌, codes, text_eq, is_empty, has_prefix, trim_prefix, trim_space,
  if◌then◌else◌, ◌&&◌, ◌||◌, Bool, true, false, any, Result, ok, err,
}

-- ErrForbidden
pub data ScopeError : Type 0 where
  forbidden : ScopeError

-- The test of one trimmed scope in `Authorize`.
unfoldable pub scope_allows : Text → Text → Text → Bool
scope_allows s model wire =
    (is_empty s || text_eq s (codes "*"))
    || text_eq s (codes "model:" ++ model)
    || text_eq s (codes "wire:" ++ wire)

authorize_loop : List Text → Text → Text → Result ScopeError Unit
authorize_loop [] model wire = err forbidden
authorize_loop (s ∷ scopes) model wire =
    if scope_allows (trim_space s) model wire then ok tt else authorize_loop scopes model wire

unfoldable pub authorize : List Text → Text → Text → Result ScopeError Unit
unfolding authorize_loop
authorize [] model wire = ok tt
authorize (s ∷ scopes) model wire = authorize_loop (s ∷ scopes) model wire

-- The test of one trimmed scope in `FilterModels`.
unfoldable pub scope_shows : Text → Text → List Text → Bool
scope_shows s model wires =
    if is_empty s || text_eq s (codes "*")
    then true
    else if text_eq s (codes "model:" ++ model)
    then true
    else if has_prefix s (codes "wire:")
    then any (λ mw. text_eq mw (trim_prefix s (codes "wire:"))) wires
    else false

filter_models_loop : List Text → Text → List Text → Bool
filter_models_loop [] model wires = false
filter_models_loop (s ∷ scopes) model wires =
    if scope_shows (trim_space s) model wires then true else filter_models_loop scopes model wires

unfoldable pub filter_models : List Text → Text → List Text → Bool
unfolding filter_models_loop
filter_models [] model wires = true
filter_models (s ∷ scopes) model wires = filter_models_loop (s ∷ scopes) model wires
