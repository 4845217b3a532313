-- ===== src/Catalog/Resolve/Sound.antt =====
-- What a successful resolution has established: the modality, the entries and each target.
use daigate.Prelude.{
  Text, Map, List, [], ◌∷◌, codes, text_eq, is_empty, lookup, keys, sort_strings, some, ok, ◌≡◌,
  ◌≢◌, ◌⊎◌, inl, inr, refl, true, false, arith, Bool-cases, Option-cases, Result-cases, subst,
  Forall₂, nil, cons, ok_of_bind,
}
use daigate.Catalog.Document.{Surface, Provider, PoolEntry, Document}
use daigate.Catalog.Wires.{protocol_matches_wire}
use daigate.Catalog.Routing.{
  Target, first_surface, surface_for, target_of, target_from_entry, targets_from,
}

-- The surface that serves an entry: the one it names, or one without an adapter whose protocol
-- fits the wire.
pub record IsServedBy (prov : Provider) (entry : PoolEntry) (wire : Text) (surf : Surface)
    : Type 0 where
  pub id : Text
  pub listed : lookup id prov.surfaces ≡ some surf
  pub fits :
      ((entry.surface ≢ []) × (id ≡ entry.surface))
      ⊎ ((entry.surface ≡ [])
          × (surf.adapter ≡ [])
          × (protocol_matches_wire surf.protocol wire ≡ true))

-- A target that an entry of the pool leads to.
pub record RoutesTo (doc : Document) (model wire : Text) (entry : PoolEntry) (t : Target)
    : Type 0 where
  pub provider : Provider
  pub found : lookup entry.provider_ref doc.providers ≡ some provider
  pub surface : Surface
  pub served : IsServedBy provider entry wire surface
  pub built : t ≡ target_of model entry provider surface

is_empty-eq-nil : (s : Text) → is_empty s ≡ true → s ≡ []
is_empty-eq-nil [] h = refl
is_empty-eq-nil (c ∷ s) h = cc

pub no_protocol_matches : (wire : Text) → protocol_matches_wire [] wire ≡ false
unfolding protocol_matches_wire text_eq codes
no_protocol_matches wire = ground arith

first_surface_sound :
    (surfaces : Map Surface) (wire : Text) (ids : List Text) {s : Surface}
    → first_surface surfaces wire ids ≡ ok s
    → (id : Text) × (lookup id surfaces ≡ some s)
      × (s.adapter ≡ [])
      × (protocol_matches_wire s.protocol wire ≡ true)
unfolding first_surface
first_surface_sound surfaces wire [] h = cc
first_surface_sound surfaces wire (id ∷ ids) {s} h = elim (Option-cases (lookup id surfaces)) [
  | inl e ↦ first_surface_sound surfaces wire ids (ground (arith, no_protocol_matches wire))
  | inr (t, e) ↦ elim (Bool-cases (is_empty t.adapter)) [
    | inr no_adapter ↦ first_surface_sound surfaces wire ids (ground arith)
    | inl adapter ↦ elim (Bool-cases (protocol_matches_wire t.protocol wire)) [
      | inr p ↦ first_surface_sound surfaces wire ids (ground arith)
      | inl p ↦
          let same : t ≡ s = ground arith in
          (id, rw (← same) e, rw (← same) (is_empty-eq-nil t.adapter adapter), rw (← same) p)
    ]
  ]
]

surface_for-IsServedBy :
    (prov : Provider) (entry : PoolEntry) (wire : Text) {s : Surface}
    → surface_for prov entry wire ≡ ok s
    → IsServedBy prov entry wire s
unfolding surface_for
surface_for-IsServedBy prov entry wire {s} h = elim (Bool-cases (is_empty entry.surface)) [
  | inl e ↦
      let (id, listed, adapter, fits) =
        first_surface_sound prov.surfaces wire (sort_strings (keys prov.surfaces)) (rw e at h) in
      record {
        id = id;
        listed = listed;
        fits = inr (is_empty-eq-nil entry.surface e, adapter, fits);
      }
  | inr e ↦ elim (Option-cases (lookup entry.surface prov.surfaces)) [
    | inl missing ↦ absurd (ground (arith, missing))
    | inr (t, found) ↦ record {
      id = entry.surface;
      listed = ground (arith, found);
      fits = inl (λ nil. cc (nil, e), refl);
    }
  ]
]

target_from_entry-RoutesTo :
    (doc : Document) (model wire : Text) (entry : PoolEntry) {t : Target}
    → target_from_entry doc model entry wire ≡ ok t
    → RoutesTo doc model wire entry t
unfolding target_from_entry
target_from_entry-RoutesTo doc model wire entry h =
    elim (Option-cases (lookup entry.provider_ref doc.providers)) [
      | inl missing ↦ absurd (ground (arith, missing))
      | inr (prov, found) ↦ elim (Result-cases (surface_for prov entry wire)) [
        | inr (e, failed) ↦ absurd (ground (arith, found, failed))
        | inl (surf, served) ↦ record {
          provider = prov;
          found = found;
          surface = surf;
          served = surface_for-IsServedBy prov entry wire served;
          built = ground (arith, found, served);
        }
      ]
    ]

pub targets_from-RoutesTo :
    (doc : Document) (model wire : Text) (entries : List PoolEntry) {ts : List Target}
    → targets_from doc model wire entries ≡ ok ts
    → Forall₂ (RoutesTo doc model wire) entries ts
unfolding targets_from
targets_from-RoutesTo doc model wire [] {ts} h =
    let same : [] ≡ ts = cc h in subst (Forall₂ (RoutesTo doc model wire) []) same nil
targets_from-RoutesTo doc model wire (entry ∷ entries) {ts} h =
    let (t, e, h') = ok_of_bind (target_from_entry doc model entry wire) _ h in
    let (ts', e', h'') = ok_of_bind (targets_from doc model wire entries) _ h' in
    let same : t ∷ ts' ≡ ts = cc h'' in
    subst (Forall₂ (RoutesTo doc model wire) (entry ∷ entries)) same (
      cons (target_from_entry-RoutesTo doc model wire entry e)
        (targets_from-RoutesTo doc model wire entries e'))
