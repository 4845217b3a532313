-- ===== src/Catalog/Resolve.antt =====
-- Catalog.ResolveWithModality (catalog/catalog.go) as a step on the catalog, and the rotation of a
-- round-robin pool. A counter is Go's 64-bit `int`, kept as its bit pattern.
pub mod Rotation
pub mod Sound
pub mod Plan
pub mod Total
pub mod Select
use daigate.Prelude.{
  Text, Map, ℕ, List, [], ◌∷◌, ◌++◌, ◌+◌, ◌-◌, ◌%◌, ◌^◌, codes, text_eq, is_empty, lookup, insert,
  sort_strings, length, get_elem?, ltb, ◌==◌, if◌then◌else◌, Option, none, some, Result, ok, err,
  ◌>>=◌,
}
use daigate.Catalog.Document.{PoolEntry, Modality, Document, Catalog, no_modality, is_nil}
use daigate.Catalog.Wires.{strategy_failover, strategy_round_robin}
use daigate.Catalog.Routing.{
  RouteError, unknown_model, no_modality_for_wire, empty_pool, empty_provider_pool,
  strategy_removed, unknown_strategy, index_out_of_range, RoutePlan, or_zero, pick_modality,
  targets_from,
}

-- `idx % n` for a counter with this bit pattern; `none` where the remainder is below zero.
unfoldable pub round_robin_index : ℕ → ℕ → Option ℕ
round_robin_index idx n =
    if ltb idx (2 ^ 63) then some (idx % n) else if (2 ^ 64 - idx) % n == 0 then some 0 else none

-- The entry at a computed index. The counter goes on before the slice is indexed, also where that
-- panics.
take_entry :
    Map ℕ → Text → ℕ → List PoolEntry → Option ℕ → Result RouteError (List PoolEntry) × Map ℕ
take_entry rr key idx pool none = (err index_out_of_range, insert key ((idx + 1) % 2 ^ 64) rr)
take_entry rr key idx pool (some i) = elim (get_elem? pool i) [
  | none ↦ (err index_out_of_range, insert key ((idx + 1) % 2 ^ 64) rr)
  | some entry ↦ (ok (entry ∷ []), insert key ((idx + 1) % 2 ^ 64) rr)
]

unfoldable pub pick_entries :
    Map ℕ → Text → Text → List PoolEntry → Result RouteError (List PoolEntry) × Map ℕ
unfolding take_entry round_robin_index
pick_entries rr key strat pool =
    if is_nil pool
    then (err empty_provider_pool, rr)
    else if text_eq strat strategy_failover
    then (ok pool, rr)
    else if text_eq strat strategy_round_robin
    then (let idx = or_zero 0 (lookup key rr) in
        take_entry rr key idx pool (round_robin_index idx (length pool)))
    else (err (unknown_strategy strat), rr)

-- The names of the modalities whose wire is the wanted one.
unfoldable pub wire_modalities : Map Modality → Text → List Text
wire_modalities [] wire = []
wire_modalities ((name, md) ∷ rest) wire =
    let names = wire_modalities rest wire in if text_eq md.wire wire then name ∷ names else names

-- `ResolveWithModality` from the model's modalities to the choice of one.
unfoldable pub modality_in : Map Modality → Text → Text → Text → Result RouteError (Text × Modality)
unfolding wire_modalities pick_modality
modality_in ms model wire hint =
    let names = sort_strings (wire_modalities ms wire) in
    if is_nil names
    then err (no_modality_for_wire model wire)
    else (do name ← pick_modality names hint; ok (name, or_zero no_modality (lookup name ms)))

-- `ResolveWithModality` down to the choice of the modality.
unfoldable pub select_modality : Document → Text → Text → Text → Result RouteError (Text × Modality)
unfolding modality_in
select_modality doc model wire hint = elim (lookup model doc.models) [
  | none ↦ err (unknown_model model)
  | some m ↦ modality_in m.modalities model wire hint
]

abbrev pub strategy_of : Modality → Text
strategy_of md = if is_empty md.strategy then strategy_failover else md.strategy

-- poolKey
abbrev pub pool_key : Text → Text → Text
pool_key name wire = name ++ codes "|" ++ wire

-- The loop of `ResolveWithModality` over the picked entries, and its result.
unfoldable pub plan_picked :
    Catalog
    → Text
    → Text
    → Text
    → Result RouteError (List PoolEntry) × Map ℕ
    → Result RouteError RoutePlan × Catalog
plan_picked cat model wire strat (picked, rr) = (
  (do
    entries ← picked
    targets ← targets_from cat.doc model wire entries
    ok (record { strategy = strat; targets = targets })),
  record cat { rr = rr },
)

-- `ResolveWithModality` from the pool on.
unfoldable pub resolve_pool :
    Catalog → Text → Text → Text → Modality → Result RouteError RoutePlan × Catalog
resolve_pool cat model wire name md =
    let strat = strategy_of md in
    if is_nil md.providers
    then (err (empty_pool model), cat)
    else if text_eq strat (codes "sticky")
    then (err (strategy_removed strat), cat)
    else plan_picked cat model wire strat
        (pick_entries cat.rr (pool_key name wire) strat md.providers)

unfoldable pub resolve_selected :
    Catalog
    → Text
    → Text
    → Result RouteError (Text × Modality)
    → Result RouteError RoutePlan × Catalog
resolve_selected cat model wire (err e) = (err e, cat)
resolve_selected cat model wire (ok (name, md)) = resolve_pool cat model wire name md

unfoldable pub resolve_with_modality :
    Catalog → Text → Text → Text → Result RouteError RoutePlan × Catalog
unfolding resolve_selected
resolve_with_modality cat model wire modality =
    resolve_selected cat model wire (select_modality cat.doc model wire modality)

-- Resolve
unfoldable pub resolve : Catalog → Text → Text → Result RouteError RoutePlan × Catalog
unfolding resolve_with_modality
resolve cat model wire = resolve_with_modality cat model wire []
