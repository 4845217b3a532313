-- ===== src/Catalog/Resolve/Plan.antt =====
-- What a successful ResolveWithModality returns, and what it does to the catalog.
use daigate.Prelude.{
  subst, Text, Map, ℕ, List, [], ◌∷◌, ◌+◌, ◌<◌, ◌%◌, ◌^◌, codes, text_eq, text_eq_iff, insert,
  length, get_elem?, some, Result, ok, ◌≡◌, inl, inr, sym, ap, false, arith, Bool-cases,
  Option-cases, Result-cases, Forall₂, Forall₂-length, IsDistinct, ok_of_bind, All,
}
use mathlib.Core.Path.{ap₂}
use daigate.Catalog.Document.{PoolEntry, Modality, Catalog, is_nil}
use daigate.Catalog.Wires.{strategy_failover, strategy_round_robin}
use daigate.Catalog.Routing.{RouteError, RoutePlan, targets_from}
use daigate.Catalog.Resolve.{
  plan_picked, round_robin_index, take_entry, pick_entries, select_modality, strategy_of, pool_key,
  resolve_pool, resolve_selected, resolve_with_modality,
}
use daigate.Catalog.Resolve.Sound.{RoutesTo, targets_from-RoutesTo}
use daigate.Catalog.Resolve.Select.{IsSelected, select_modality-IsSelected}
use daigate.Catalog.Resolve.Rotation.{counter}

-- The entries that a strategy takes from a pool, with the counters after it.
pub data Picks (rr : Map ℕ) (key : Text) (pool : List PoolEntry)
    : Text → List PoolEntry → Map ℕ → Type 0 where
  whole_pool :
      {strat : Text} {entries : List PoolEntry} {rr' : Map ℕ}
      → strat ≡ strategy_failover
      → entries ≡ pool
      → rr' ≡ rr
      → Picks rr key pool strat entries rr'
  one_in_turn :
      {strat : Text} {entries : List PoolEntry} {rr' : Map ℕ} (i : ℕ) (e : PoolEntry)
      → strat ≡ strategy_round_robin
      → round_robin_index (counter rr key) (length pool) ≡ some i
      → get_elem? pool i ≡ some e
      → entries ≡ e ∷ []
      → rr' ≡ insert key ((counter rr key + 1) % 2 ^ 64) rr
      → Picks rr key pool strat entries rr'

take_entry-Picks :
    (rr : Map ℕ) (key strat : Text) (pool entries : List PoolEntry) (rr' : Map ℕ)
    → strat ≡ strategy_round_robin
    → take_entry rr key (counter rr key) pool (round_robin_index (counter rr key) (length pool))
      ≡ (ok entries, rr')
    → Picks rr key pool strat entries rr'
unfolding take_entry
take_entry-Picks rr key strat pool entries rr' s h =
    elim (Option-cases (round_robin_index (counter rr key) (length pool))) [
      | inl panic ↦ absurd (ground (arith, panic))
      | inr (i, at) ↦ elim (Option-cases (get_elem? pool i)) [
        | inl out ↦ absurd (ground (arith, at, out))
        | inr (e, due) ↦
            one_in_turn i e s at due (ground (arith, at, due)) (ground (arith, at, due))
      ]
    ]

pick_entries-Picks :
    (rr : Map ℕ) (key strat : Text) (pool entries : List PoolEntry) (rr' : Map ℕ)
    → pick_entries rr key strat pool ≡ (ok entries, rr')
    → Picks rr key pool strat entries rr'
unfolding pick_entries
pick_entries-Picks rr key strat [] entries rr' h = absurd (ground arith)
pick_entries-Picks rr key strat (p ∷ ps) entries rr' h =
    elim (Bool-cases (text_eq strat strategy_failover)) [
      | inl f ↦
          whole_pool ((text_eq_iff strat strategy_failover).0 f) (ground (arith, f))
            (ground (arith, f))
      | inr nf ↦ elim (Bool-cases (text_eq strat strategy_round_robin)) [
        | inl r ↦
            take_entry-Picks rr key strat (p ∷ ps) entries rr'
              ((text_eq_iff strat strategy_round_robin).0 r) (rw (nf, r, pick_entries) at h)
        | inr nr ↦ absurd (ground (arith, nf, nr))
      ]
    ]

Picks-nonempty :
    {rr rr' : Map ℕ} {key strat : Text} {pool entries : List PoolEntry}
    → 0 < length pool
    → Picks rr key pool strat entries rr'
    → 0 < length entries
Picks-nonempty n (whole_pool s e r) = rw e n
Picks-nonempty n (one_in_turn i e s at due same r) = rw same (omega arith)

pub record IsResolved (cat : Catalog) (model wire hint : Text) (plan : RoutePlan) (cat' : Catalog)
    : Type 0 where
  pub name : Text
  pub modality : Modality
  pub selected : IsSelected cat.doc model wire hint name modality
  pub entries : List PoolEntry
  pub strategy : plan.strategy ≡ strategy_of modality
  pub picks : Picks cat.rr (pool_key name wire) modality.providers plan.strategy entries cat'.rr
  pub routed : Forall₂ (RoutesTo cat.doc model wire) entries plan.targets
  pub attempted : 0 < length plan.targets
  pub document_kept : cat'.doc ≡ cat.doc

pool_pos : (pool : List PoolEntry) → is_nil pool ≡ false → 0 < length pool
pool_pos [] h = cc
pool_pos (e ∷ es) h = omega arith

plan_picked_sound :
    (cat : Catalog) (model wire strat : Text) (picks : Result RouteError (List PoolEntry) × Map ℕ)
    (plan : RoutePlan) (cat' : Catalog)
    → plan_picked cat model wire strat picks ≡ (ok plan, cat')
    → (entries : List PoolEntry) × (picks ≡ (ok entries, cat'.rr))
      × (targets_from cat.doc model wire entries ≡ ok plan.targets)
      × (plan.strategy ≡ strat)
      × (cat'.doc ≡ cat.doc)
unfolding plan_picked
plan_picked_sound cat model wire strat (picked, rr) plan cat' h =
    let (entries, e, h') = ok_of_bind picked _ (ap (λ p. p.0) h) in
    let (ts, e', h'') = ok_of_bind (targets_from cat.doc model wire entries) _ h' in
    let after : record cat { rr = rr } ≡ cat' = ap (λ p. p.1) h in
    (
      entries,
      ap₂ (λ r m. (r, m)) e (ap (λ c. c.rr) after),
      ground (arith, e', h''),
      ground (arith, h''),
      ap (λ c. c.doc) (sym after),
    )

resolve_pool-eq-plan_picked :
    (cat : Catalog) (model wire name : Text) (md : Modality) (plan : RoutePlan) (cat' : Catalog)
    → resolve_pool cat model wire name md ≡ (ok plan, cat')
    → (0 < length md.providers)
      × (plan_picked cat model wire
            (strategy_of md)
            (pick_entries cat.rr (pool_key name wire) (strategy_of md) md.providers)
          ≡ (ok plan, cat'))
unfolding resolve_pool
resolve_pool-eq-plan_picked cat model wire name md plan cat' h =
    elim (Bool-cases (is_nil md.providers)) [
      | inl unlisted ↦ absurd (ground (arith, unlisted))
      | inr listed ↦ elim (Bool-cases (text_eq (strategy_of md) (codes "sticky"))) [
        | inl sticky ↦ absurd (ground (arith, listed, sticky))
        | inr other ↦ (pool_pos md.providers listed, rw (listed, other, resolve_pool) at h)
      ]
    ]

-- A successful resolution: the modality belongs to the model and has the wire, and it is the
-- hinted one if there is a hint; a failover pool is taken whole and in order, of a round-robin
-- pool the one entry that is due; each entry has led to its target, by its provider and a surface
-- that it names or that fits the wire; there is at least one target; and nothing of the catalog
-- changes but the counters. The document lists no modality of a model twice.
pub resolve_with_modality-IsResolved :
    (cat : Catalog) (model wire hint : Text) (plan : RoutePlan) (cat' : Catalog)
    → All (λ e. IsDistinct e.1.modalities) cat.doc.models
    → resolve_with_modality cat model wire hint ≡ (ok plan, cat')
    → IsResolved cat model wire hint plan cat'
unfolding resolve_with_modality
resolve_with_modality-IsResolved cat model wire hint plan cat' d h =
    elim (Result-cases (select_modality cat.doc model wire hint)) [
      | inr (e, failed) ↦ absurd (ground (arith, failed))
      | inl ((name, md), chosen) ↦
          let (listed, run) =
            resolve_pool-eq-plan_picked cat model wire name md plan cat'
              (rw (chosen, resolve_with_modality, resolve_selected) at h) in
          let (entries, got, built, strat, kept) =
            plan_picked_sound cat model wire (strategy_of md)
              (pick_entries cat.rr (pool_key name wire) (strategy_of md) md.providers) plan cat'
              run in
          let picks =
            pick_entries-Picks cat.rr (pool_key name wire) (strategy_of md) md.providers entries
              cat'.rr got in
          let routed = targets_from-RoutesTo cat.doc model wire entries built in
          record {
            name = name;
            modality = md;
            selected = select_modality-IsSelected cat.doc model wire hint d chosen;
            entries = entries;
            strategy = strat;
            picks =
                subst (λ st. Picks cat.rr (pool_key name wire) md.providers st entries cat'.rr)
                  (sym strat) picks;
            routed = routed;
            attempted =
                subst (λ n. 0 < n) (Forall₂-length (RoutesTo cat.doc model wire) routed)
                  (Picks-nonempty listed picks);
            document_kept = kept;
          }
    ]
