-- ===== src/Tests/Routes.antt =====
-- A catalog of two providers (catalog/), with a failover model and a round-robin model.
use daigate.Prelude.{
  Text, Map, ℕ, ◌+◌, ◌≤◌, ◌%◌, ◌^◌, List, [], ◌∷◌, ◌++◌, codes, text_eq, has_prefix, trim_prefix,
  trim_space, lookup, insert, sort_strings, drop, take, any, Bool, true, none, some, ok, err, ◌≡◌,
  ◌↔◌, refl, arith, All, Permᴰ, IsDistinct,
}
use daigate.Catalog.Document.{Surface, Provider, PoolEntry, Modality, Document, Catalog, normalize}
use daigate.Catalog.Wires.{
  wire_openai_chat, wire_openai_embed, wire_openai_videos, strategy_failover, strategy_round_robin,
  wire_for_path, modality_hint, protocol_matches_wire,
}
use daigate.Catalog.Routing.{Target, RoutePlan, unknown_model, targets_from}
use daigate.Catalog.Resolve.{
  select_modality, modality_in, pick_entries, plan_picked, resolve_pool, resolve_with_modality,
}
use daigate.Catalog.Resolve.Plan.{IsResolved, resolve_with_modality-IsResolved}
use daigate.Catalog.Resolve.Rotation.{counter, served, served-full_round}
use daigate.Catalog.Resolve.Select.{modality_in-perm}
use daigate.Catalog.Doctor.{doctor}
use daigate.Catalog.Doctor.Clean.{IsCovered, doctor-eq-nil}
use daigate.Catalog.Listing.{list_models_for}
use daigate.Catalog.Listing.Visible.{is_listed, list_models_for-eq-any}
use daigate.Keyring.Scopes.{authorize}
use daigate.Keyring.Scopes.Visible.{is_ok}

routes : Unit {0}
unfolding resolve_with_modality select_modality resolve_pool plan_picked pick_entries targets_from
    doctor wire_for_path modality_hint trim_space has_prefix trim_prefix text_eq lookup insert
    sort_strings codes protocol_matches_wire normalize
routes = tt

abbrev surface_of : Text → Text → Surface
surface_of protocol base = record { protocol = protocol; adapter = []; base_url = base }

abbrev provider_of : Text → Text → Provider
provider_of profile base = record {
  credential_profile = profile;
  inject = [];
  inject_preset = [];
  surfaces =
      (codes "chat", surface_of (codes "openai-chat-completions") base)
      ∷ (codes "embed", surface_of (codes "openai-embeddings") base)
      ∷ [];
  protocol = [];
  base_url = [];
}

abbrev entry_of : Text → Text → PoolEntry
entry_of ref model = record { provider_ref = ref; model = model; surface = [] }

abbrev pool : List PoolEntry
pool = entry_of (codes "east") (codes "gpt-5.4") ∷ entry_of (codes "west") [] ∷ []

abbrev modality_of : Text → Text → Modality
modality_of wire strategy = record { wire = wire; strategy = strategy; providers = pool }

abbrev modalities : Map Modality
modalities =
    (codes "search_web", modality_of wire_openai_chat strategy_round_robin)
    ∷ (codes "chat", modality_of wire_openai_chat [])
    ∷ (codes "embed", modality_of wire_openai_embed strategy_round_robin)
    ∷ []

abbrev pub document : Document
document = record {
  providers =
      (codes "east", provider_of (codes "east-key") (codes "https://east/v1"))
      ∷ (codes "west", provider_of (codes "west-key") (codes "https://west"))
      ∷ [];
  models = (codes "mini", record { modalities = modalities }) ∷ [];
}

abbrev pub catalog : Catalog
catalog = record { doc = document; rr = [] }

abbrev pub target_at : Text → Text → Text → Text → Target
target_at ref profile base upstream = record {
  model = codes "mini";
  provider_ref = ref;
  protocol = codes "openai-chat-completions";
  adapter = [];
  base_url = base;
  credential_profile = profile;
  upstream_model = upstream;
  inject = [];
  inject_preset = [];
}

abbrev pub east : Target
east = target_at (codes "east") (codes "east-key") (codes "https://east/v1") (codes "gpt-5.4")

abbrev pub west : Target
west = target_at (codes "west") (codes "west-key") (codes "https://west") (codes "mini")

abbrev pub plan : RoutePlan
plan = record { strategy = strategy_failover; targets = east ∷ west ∷ [] }

-- "chat" is the default beside "search_web", and its pool is a failover pool.
pub resolve_mini :
    resolve_with_modality catalog (codes "mini") wire_openai_chat [] ≡ (ok plan, catalog)
unfolding routes
resolve_mini = refl

resolve_unknown :
    resolve_with_modality catalog (codes "maxi") wire_openai_chat []
    ≡ (err (unknown_model (codes "maxi")), catalog)
unfolding routes
resolve_unknown = refl

-- The hint picks "search_web", whose pool is in rotation.
resolve_hinted :
    (resolve_with_modality catalog (codes "mini") wire_openai_chat (codes " search_web ")).1.rr
    ≡ (codes "search_web|openai-chat-completions", 1) ∷ []
unfolding routes
resolve_hinted = refl

paths :
    (wire_for_path (codes " /v1/embeddings") ≡ some wire_openai_embed)
    × (wire_for_path (codes "/v1/videos/v-1") ≡ some wire_openai_videos)
    × (wire_for_path (codes "/v1/nothing") ≡ none)
    × (modality_hint (codes "image") wire_openai_embed ≡ codes "embed")
unfolding routes
paths = (refl, refl, refl, refl)

pub document-IsDistinct : All (λ e. IsDistinct e.1.modalities) document.models
unfolding lookup text_eq codes
document-IsDistinct = ((refl, (refl, (refl, tt))), tt)

resolve_with_modality-IsResolved_example :
    IsResolved catalog (codes "mini") wire_openai_chat [] plan catalog
resolve_with_modality-IsResolved_example =
    resolve_with_modality-IsResolved catalog (codes "mini") wire_openai_chat [] plan catalog
      document-IsDistinct resolve_mini

abbrev turned : Map ℕ
turned = (codes "k", 3) ∷ []

turned_at : counter turned (codes "k") ≡ 3
unfolding lookup text_eq codes
turned_at = refl

turned_small : counter turned (codes "k") + 2 ≤ 2 ^ 63
turned_small = rw turned_at (omega arith)

served-full_round_example :
    served 2 turned (codes "k") pool
    ≡ drop (counter turned (codes "k") % 2) pool ++ take (counter turned (codes "k") % 2) pool
served-full_round_example = served-full_round turned (codes "k") pool (omega arith) turned_small

abbrev reordered : Map Modality
reordered =
    (codes "chat", modality_of wire_openai_chat [])
    ∷ (codes "search_web", modality_of wire_openai_chat strategy_round_robin)
    ∷ (codes "embed", modality_of wire_openai_embed strategy_round_robin)
    ∷ []

reordered-IsDistinct : IsDistinct reordered
unfolding lookup text_eq codes
reordered-IsDistinct = (refl, (refl, (refl, tt)))

reordered_perm : Permᴰ modalities reordered
reordered_perm = Permᴰ.swap refl refl

modality_in-perm_example :
    modality_in modalities (codes "mini") wire_openai_chat []
    ≡ modality_in reordered (codes "mini") wire_openai_chat []
modality_in-perm_example =
    modality_in-perm modalities reordered (codes "mini") wire_openai_chat [] document-IsDistinct.0
      reordered-IsDistinct reordered_perm

abbrev handlers : Map Bool
handlers = (codes "openai-chat-completions", true) ∷ (codes "openai-embeddings", true) ∷ []

doctor_missing :
    doctor document [] []
    ≡ codes "protocol:openai-chat-completions" ∷ codes "protocol:openai-embeddings" ∷ []
unfolding routes
doctor_missing = refl

doctor-eq-nil_example :
    (doctor document handlers [] ≡ []) ↔ All (λ e. IsCovered handlers [] e.1) document.providers
doctor-eq-nil_example = doctor-eq-nil document handlers []

known_mini : lookup (codes "mini") document.models ≡ some (record { modalities = modalities })
unfolding lookup text_eq codes
known_mini = refl

list_models_for-eq-any_example :
    is_listed (codes "mini") (list_models_for catalog (some (codes "model:mini" ∷ []))).items
    ≡ any (λ e. is_ok (authorize (codes "model:mini" ∷ []) (codes "mini") e.1.wire)) modalities
list_models_for-eq-any_example =
    list_models_for-eq-any catalog (codes "model:mini" ∷ []) (codes "mini") (codes "search_web")
      (modality_of wire_openai_chat strategy_round_robin)
      ((codes "chat", modality_of wire_openai_chat [])
        ∷ (codes "embed", modality_of wire_openai_embed strategy_round_robin)
        ∷ [])
      known_mini
