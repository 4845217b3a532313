-- ===== src/Catalog/Resolve/Total.antt =====
-- That a resolution does not panic while every rotation counter is a number of Go's int.
use daigate.Prelude.{
  Text, Map, ℕ, ◌<◌, ◌^◌, List, [], ◌∷◌, codes, text_eq, text_eq_iff, lookup, mem_of_lookup,
  sort_strings, Result, ok, err, ◌>>=◌, ◌≢◌, inl, inr, sym, arith, Bool-cases, Option-cases,
  Result-cases, All, All-mem, subst, keys,
}
use daigate.Catalog.Document.{Surface, Provider, PoolEntry, Modality, Document, Catalog, is_nil}
use daigate.Catalog.Wires.{strategy_failover, strategy_round_robin}
use daigate.Catalog.Routing.{
  RouteError, index_out_of_range, default_modality, pick_modality, first_surface, surface_for,
  target_from_entry, targets_from,
}
use daigate.Catalog.Resolve.{
  pick_entries, wire_modalities, modality_in, select_modality, strategy_of, pool_key, plan_picked,
  resolve_pool, resolve_selected, resolve_with_modality,
}
use daigate.Catalog.Resolve.Rotation.{counter, pick_entries_round_robin}

-- A result that is not the panic of an index below zero.
abbrev IsNoPanic : {A : Type 0} → Result RouteError A → Type 0
IsNoPanic r = r ≢ err index_out_of_range

bind-IsNoPanic :
    {A B : Type 0} (r : Result RouteError A) (next : A → Result RouteError B)
    → IsNoPanic r
    → ((a : A) → IsNoPanic (next a))
    → IsNoPanic (r >>= next)
bind-IsNoPanic (ok a) next h k = k a
bind-IsNoPanic (err e) next h k = λ same. h (cc)

counter-lt : (rr : Map ℕ) (key : Text) → All (λ n. n.1 < 2 ^ 63) rr → counter rr key < 2 ^ 63
counter-lt rr key small = elim (Option-cases (lookup key rr)) [
  | inl missing ↦ rw missing (omega arith)
  | inr (n, found) ↦ rw found (All-mem (λ n. n.1 < 2 ^ 63) (mem_of_lookup key rr found) small)
]

pick_entries-IsNoPanic :
    (rr : Map ℕ) (key strat : Text) (pool : List PoolEntry)
    → All (λ n. n.1 < 2 ^ 63) rr
    → IsNoPanic (pick_entries rr key strat pool).0
unfolding pick_entries
pick_entries-IsNoPanic rr key strat [] small = cc
pick_entries-IsNoPanic rr key strat (p ∷ ps) small =
    elim (Bool-cases (text_eq strat strategy_failover)) [
      | inl f ↦ ground (arith, f)
      | inr nf ↦ elim (Bool-cases (text_eq strat strategy_round_robin)) [
        | inr nr ↦ ground (arith, nf, nr)
        | inl r ↦
            let (e, due, step) =
              pick_entries_round_robin rr key (p ∷ ps) (omega arith) (counter-lt rr key small) in
            subst (λ st. IsNoPanic (pick_entries rr key st (p ∷ ps)).0)
              (sym ((text_eq_iff strat strategy_round_robin).0 r)) (rw step (λ same. cc))
      ]
    ]

first_surface-IsNoPanic :
    (surfaces : Map Surface) (wire : Text) (ids : List Text)
    → IsNoPanic (first_surface surfaces wire ids)
unfolding first_surface
first_surface-IsNoPanic surfaces wire [] = cc
first_surface-IsNoPanic surfaces wire (id ∷ ids) =
    ground (arith, first_surface-IsNoPanic surfaces wire ids)

surface_for-IsNoPanic :
    (prov : Provider) (entry : PoolEntry) (wire : Text) → IsNoPanic (surface_for prov entry wire)
unfolding surface_for
surface_for-IsNoPanic prov entry wire =
    ground (arith, first_surface-IsNoPanic prov.surfaces wire (sort_strings (keys prov.surfaces)))

target_from_entry-IsNoPanic :
    (doc : Document) (model : Text) (entry : PoolEntry) (wire : Text)
    → IsNoPanic (target_from_entry doc model entry wire)
unfolding target_from_entry
target_from_entry-IsNoPanic doc model entry wire =
    elim (Option-cases (lookup entry.provider_ref doc.providers)) [
      | inl missing ↦ ground (arith, missing)
      | inr (prov, found) ↦
          rw (target_from_entry, found)
            (bind-IsNoPanic (surface_for prov entry wire) _ (surface_for-IsNoPanic prov entry wire)
              (λ s same. cc))
    ]

targets_from-IsNoPanic :
    (doc : Document) (model wire : Text) (entries : List PoolEntry)
    → IsNoPanic (targets_from doc model wire entries)
unfolding targets_from
targets_from-IsNoPanic doc model wire [] = cc
targets_from-IsNoPanic doc model wire (entry ∷ entries) =
    bind-IsNoPanic (target_from_entry doc model entry wire) _
      (target_from_entry-IsNoPanic doc model entry wire)
      (λ t.
        bind-IsNoPanic (targets_from doc model wire entries) _
          (targets_from-IsNoPanic doc model wire entries) (λ ts same. cc))

default_modality-IsNoPanic : (names : List Text) → IsNoPanic (default_modality names)
unfolding default_modality
default_modality-IsNoPanic [] = ground arith
default_modality-IsNoPanic (name ∷ []) = cc
default_modality-IsNoPanic (name ∷ other ∷ names) = ground arith

pick_modality-IsNoPanic : (names : List Text) (hint : Text) → IsNoPanic (pick_modality names hint)
unfolding pick_modality
pick_modality-IsNoPanic names hint = ground (arith, default_modality-IsNoPanic names)

modality_in-IsNoPanic :
    (ms : Map Modality) (model wire hint : Text) → IsNoPanic (modality_in ms model wire hint)
unfolding modality_in
modality_in-IsNoPanic ms model wire hint =
    let names = sort_strings (wire_modalities ms wire) in
    elim (Bool-cases (is_nil names)) [
      | inl nothing ↦ rw (modality_in, nothing) (λ same. cc)
      | inr something ↦
          rw (modality_in, something)
            (bind-IsNoPanic (pick_modality names hint) _ (pick_modality-IsNoPanic names hint)
              (λ name same. cc))
    ]

select_modality-IsNoPanic :
    (doc : Document) (model wire hint : Text) → IsNoPanic (select_modality doc model wire hint)
unfolding select_modality
select_modality-IsNoPanic doc model wire hint = elim (Option-cases (lookup model doc.models)) [
  | inl missing ↦ ground (arith, missing)
  | inr (m, found) ↦ ground (arith, found, modality_in-IsNoPanic m.modalities model wire hint)
]

plan_picked-IsNoPanic :
    (cat : Catalog) (model wire strat : Text) (picks : Result RouteError (List PoolEntry) × Map ℕ)
    → IsNoPanic picks.0
    → IsNoPanic (plan_picked cat model wire strat picks).0
unfolding plan_picked
plan_picked-IsNoPanic cat model wire strat (picked, rr) h = bind-IsNoPanic picked _ h (λ entries.
    bind-IsNoPanic (targets_from cat.doc model wire entries) _
      (targets_from-IsNoPanic cat.doc model wire entries) (λ ts same. cc))

resolve_pool-IsNoPanic :
    (cat : Catalog) (model wire name : Text) (md : Modality)
    → All (λ n. n.1 < 2 ^ 63) cat.rr
    → IsNoPanic (resolve_pool cat model wire name md).0
unfolding resolve_pool
resolve_pool-IsNoPanic cat model wire name md small =
    let strat = strategy_of md in
    let run =
      plan_picked-IsNoPanic cat model wire strat
        (pick_entries cat.rr (pool_key name wire) strat md.providers)
        (pick_entries-IsNoPanic cat.rr (pool_key name wire) strat md.providers small) in
    elim (Bool-cases (is_nil md.providers)) [
      | inl unlisted ↦ rw (resolve_pool, unlisted) (λ same. cc)
      | inr listed ↦ elim (Bool-cases (text_eq strat (codes "sticky"))) [
        | inl sticky ↦ rw (resolve_pool, listed, sticky) (λ same. cc)
        | inr other ↦ rw (resolve_pool, listed, other) run
      ]
    ]

-- While every rotation counter is below 2^63, a resolution indexes no pool out of its range.
pub resolve_with_modality-ne-panic :
    (cat : Catalog) (model wire hint : Text)
    → All (λ n. n.1 < 2 ^ 63) cat.rr
    → (resolve_with_modality cat model wire hint).0 ≢ err index_out_of_range
unfolding resolve_with_modality resolve_selected
resolve_with_modality-ne-panic cat model wire hint small =
    elim (Result-cases (select_modality cat.doc model wire hint)) [
      | inr (e, failed) ↦
          rw (resolve_with_modality, resolve_selected, failed)
            (λ same. select_modality-IsNoPanic cat.doc model wire hint (cc (failed, same)))
      | inl ((name, md), chosen) ↦
          rw (resolve_with_modality, resolve_selected, chosen)
            (resolve_pool-IsNoPanic cat model wire name md small)
    ]
