-- ===== src/Catalog/Document.antt =====
-- The operator's document, as catalog/catalog.go declares it. Decoding the yaml file is not
-- modelled: a value of `Document` is what the decoder returned.
use daigate.Prelude.{
  Text, Map, ℕ, List, [], ◌∷◌, is_empty, codes, if◌then◌else◌, ◌&&◌, not, Bool, true, false,
}

pub record Surface : Type 0 where
  pub protocol : Text
  pub adapter : Text
  pub base_url : Text

pub record Provider : Type 0 where
  pub credential_profile : Text
  pub inject : Map Text
  pub inject_preset : Text
  pub surfaces : Map Surface
  pub protocol : Text
  pub base_url : Text

pub record PoolEntry : Type 0 where
  pub provider_ref : Text
  pub model : Text
  pub surface : Text

pub record Modality : Type 0 where
  pub wire : Text
  pub strategy : Text
  pub providers : List PoolEntry

pub record Model : Type 0 where
  pub modalities : Map Modality

pub record Document : Type 0 where
  pub providers : Map Provider
  pub models : Map Model

-- The zero values, which Go returns for a missing map entry.
abbrev pub no_surface : Surface
no_surface = record { protocol = []; adapter = []; base_url = [] }

abbrev pub no_modality : Modality
no_modality = record { wire = []; strategy = []; providers = [] }

abbrev pub no_model : Model
no_model = record { modalities = [] }

abbrev pub is_nil {ℓ} : {A : Type ℓ} → List A → Bool
is_nil [] = true
is_nil (x ∷ xs) = false

-- A provider in the flat legacy form gets its one surface under the name "default".
unfoldable pub normalize_provider : Provider → Provider
normalize_provider p =
    if is_nil p.surfaces && not (is_empty p.protocol)
    then record p {
      surfaces =
          (codes "default", record { protocol = p.protocol; adapter = []; base_url = p.base_url })
          ∷ [];
    }
    else p

normalize_providers : Map Provider → Map Provider
normalize_providers [] = []
normalize_providers ((name, p) ∷ rest) = (name, normalize_provider p) ∷ normalize_providers rest

unfoldable pub normalize : Document → Document
unfolding normalize_providers normalize_provider
normalize doc = record doc { providers = normalize_providers doc.providers }

-- The catalog: the document, and the rotation counters of the round-robin pools.
pub record Catalog : Type 0 where
  pub doc : Document
  pub rr : Map ℕ

-- NewFromDocument
unfoldable pub new_from_document : Document → Catalog
unfolding normalize
new_from_document doc = record { doc = normalize doc; rr = [] }
