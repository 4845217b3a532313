-- ===== src/Catalog/Routing.antt =====
-- The choice of upstreams for a model and a wire: Catalog.ResolveWithModality and its parts
-- (catalog/catalog.go). The mutex makes each call one step on the counters.
use daigate.Prelude.{
  keys, Text, Map, List, [], ◌∷◌, codes, text_eq, is_empty, trim_space, lookup, sort_strings,
  if◌then◌else◌, ◌&&◌, ◌||◌, not, Bool, true, false, Option, none, some, Result, ok, err, ◌>>=◌,
}
use daigate.Catalog.Document.{Surface, Provider, PoolEntry, Document, no_surface}
use daigate.Catalog.Wires.{protocol_matches_wire}

-- The errors of this file, by the message that each carries. `index_out_of_range` is the panic of
-- an index below zero.
pub data RouteError : Type 0 where
  unknown_model : Text → RouteError
  no_modality_for_wire : Text → Text → RouteError
  modality_not_available : Text → RouteError
  multiple_modalities : List Text → RouteError
  empty_pool : Text → RouteError
  empty_provider_pool : RouteError
  strategy_removed : Text → RouteError
  unknown_strategy : Text → RouteError
  unknown_provider_ref : Text → RouteError
  surface_not_found : Text → RouteError
  no_surface_for_wire : Text → RouteError
  index_out_of_range : RouteError

pub record Target : Type 0 where
  pub model : Text
  pub provider_ref : Text
  pub protocol : Text
  pub adapter : Text
  pub base_url : Text
  pub credential_profile : Text
  pub upstream_model : Text
  pub inject : Map Text
  pub inject_preset : Text

pub record RoutePlan : Type 0 where
  pub strategy : Text
  pub targets : List Target

abbrev pub or_zero {ℓ} : {A : Type ℓ} → A → Option A → A
or_zero z none = z
or_zero z (some a) = a

unfoldable pub has_modality : List Text → Text → Bool
has_modality [] name = false
has_modality (c ∷ cs) name = text_eq c name || has_modality cs name

unfoldable pub only_search_siblings : List Text → Bool
only_search_siblings [] = true
only_search_siblings (name ∷ cs) =
    if text_eq name (codes "chat")
    then only_search_siblings cs
    else if not (text_eq name (codes "search_web")) && not (text_eq name (codes "search_x"))
    then false
    else only_search_siblings cs

-- The branches of `pickModality` for an empty hint.
unfoldable pub default_modality : List Text → Result RouteError Text
unfolding has_modality only_search_siblings
default_modality (name ∷ []) = ok name
default_modality candidates =
    if has_modality candidates (codes "chat") && only_search_siblings candidates
    then ok (codes "chat")
    else err (multiple_modalities candidates)

unfoldable pub pick_modality : List Text → Text → Result RouteError Text
unfolding default_modality
pick_modality candidates hint =
    let hint' = trim_space hint in
    if not (is_empty hint')
    then (if has_modality candidates hint' then ok hint' else err (modality_not_available hint'))
    else default_modality candidates

-- The loop of `surfaceFor` over the sorted surface ids.
unfoldable pub first_surface : Map Surface → Text → List Text → Result RouteError Surface
first_surface surfaces wire [] = err (no_surface_for_wire wire)
first_surface surfaces wire (id ∷ ids) =
    let s = or_zero no_surface (lookup id surfaces) in
    if not (is_empty s.adapter)
    then first_surface surfaces wire ids
    else if protocol_matches_wire s.protocol wire
    then ok s
    else first_surface surfaces wire ids

unfoldable pub surface_for : Provider → PoolEntry → Text → Result RouteError Surface
unfolding first_surface
surface_for prov entry wire =
    if not (is_empty entry.surface)
    then elim (lookup entry.surface prov.surfaces) [
      | none ↦ err (surface_not_found entry.surface)
      | some s ↦ ok s
    ]
    else first_surface prov.surfaces wire (sort_strings (keys prov.surfaces))

abbrev pub target_of : Text → PoolEntry → Provider → Surface → Target
target_of model entry prov surf = record {
  model = model;
  provider_ref = entry.provider_ref;
  protocol = surf.protocol;
  adapter = surf.adapter;
  base_url = surf.base_url;
  credential_profile = prov.credential_profile;
  upstream_model =
      (let upstream_model = trim_space entry.model in
        if is_empty upstream_model then trim_space model else upstream_model);
  inject = prov.inject;
  inject_preset = prov.inject_preset;
}

unfoldable pub target_from_entry : Document → Text → PoolEntry → Text → Result RouteError Target
unfolding surface_for
target_from_entry doc model entry wire = elim (lookup entry.provider_ref doc.providers) [
  | none ↦ err (unknown_provider_ref entry.provider_ref)
  | some prov ↦ (do surf ← surface_for prov entry wire; ok (target_of model entry prov surf))
]

-- The loop of `ResolveWithModality` over the picked entries.
unfoldable pub targets_from :
    Document → Text → Text → List PoolEntry → Result RouteError (List Target)
unfolding target_from_entry
targets_from doc model wire [] = ok []
targets_from doc model wire (entry ∷ entries) = do
  t ← target_from_entry doc model entry wire
  ts ← targets_from doc model wire entries
  ok (t ∷ ts)
