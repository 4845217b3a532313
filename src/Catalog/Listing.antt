-- ===== src/Catalog/Listing.antt =====
-- The model list of GET /v1/models (catalog/models_list.go). `none` among the scopes is Go's nil
-- slice; the field `created` is always 0.
pub mod Visible
use daigate.Prelude.{
  keys, Text, Map, ℕ, List, [], ◌∷◌, codes, lookup, insert, sort_strings, if◌then◌else◌, not, Bool,
  true, false, Option, none, some,
}
use daigate.Catalog.Document.{Modality, Model, Catalog, no_model}
use daigate.Catalog.Routing.{or_zero}
use daigate.Keyring.Scopes.{filter_models}

pub record ModelListItem : Type 0 where
  pub id : Text
  pub object : Text
  pub created : ℕ
  pub owned_by : Text

pub record ModelsListResponse : Type 0 where
  pub object : Text
  pub items : List ModelListItem

seen_wires : Map Modality → Map Bool → Map Bool
seen_wires [] seen = seen
seen_wires ((name, md) ∷ ms) seen = seen_wires ms (insert md.wire true seen)

unfoldable pub model_wires : Model → List Text
unfolding seen_wires
model_wires m = keys (seen_wires m.modalities [])

abbrev pub item_of : Text → ModelListItem
item_of id = record { id = id; object = codes "model"; created = 0; owned_by = codes "daigate" }

-- The test that keeps a model in the list.
unfoldable pub is_shown : Option (List Text) → Text → Model → Bool
is_shown none id m = true
is_shown (some scopes) id m = filter_models scopes id (model_wires m)

unfoldable pub list_loop : Map Model → Option (List Text) → List Text → List ModelListItem
list_loop models scopes [] = []
list_loop models scopes (id ∷ ids) =
    let rest = list_loop models scopes ids in
    if not (is_shown scopes id (or_zero no_model (lookup id models)))
    then rest
    else item_of id ∷ rest

-- listModels
unfoldable pub list_models_in : Catalog → Option (List Text) → ModelsListResponse
list_models_in c scopes = record {
  object = codes "list";
  items = list_loop c.doc.models scopes (sort_strings (keys c.doc.models));
}

unfoldable pub list_models : Catalog → ModelsListResponse
list_models c = list_models_in c none

unfoldable pub list_models_for : Catalog → Option (List Text) → ModelsListResponse
list_models_for c scopes = list_models_in c scopes
