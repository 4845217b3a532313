-- ===== src/Catalog/Doctor/Clean.antt =====
-- When Doctor finds nothing missing, and what that gives for a route.
use daigate.Prelude.{
  Text, Map, List, [], ◌∷◌, ◌++◌, codes, is_empty, text_eq, text_eq_iff, insert, keys, Bool, true,
  ◌≡◌, ◌↔◌, ◌⊎◌, inl, inr, refl, All, Bool-cases,
}
use daigate.Catalog.Document.{Surface, Provider, Document}
use daigate.Catalog.Doctor.{
  Seen, mark, see_surfaces, see_provider, see_providers, registered_routes, registered, missing,
  doctor,
}

-- A name that a document gives: none, or that of a linked handler.
abbrev pub IsLinked : Map Bool → Text → Type 0
IsLinked handlers name = (is_empty name ≡ true) ⊎ (registered handlers name ≡ true)

-- Every protocol and adapter that a surface names is linked.
abbrev pub HasHandlers : Map Bool → Map Bool → Surface → Type 0
HasHandlers protocols adapters s = IsLinked protocols s.protocol × IsLinked adapters s.adapter

abbrev pub IsCovered : Map Bool → Map Bool → Provider → Type 0
IsCovered protocols adapters p =
    All (λ e. HasHandlers protocols adapters e.1) p.surfaces × IsLinked protocols p.protocol

module _ (handlers : Map Bool) where
  abbrev AllIn : Map Bool → Type 0
  AllIn seen = All (λ k. registered handlers k ≡ true) (keys seen)

  AllIn-insert :
      (k : Text) (seen : Map Bool)
      → AllIn (insert k true seen) ↔ (AllIn seen × (registered handlers k ≡ true))
  unfolding insert
  AllIn-insert k [] = ((λ h. (tt, h.0)), (λ h. (h.1, tt)))
  AllIn-insert k ((j, b) ∷ seen) = elim (Bool-cases (text_eq j k)) [
    | inl e ↦
        let same : j ≡ k = (text_eq_iff j k).0 e in rw e (rw same ((λ h. (h, h.0)), (λ h. h.0)))
    | inr e ↦
        let ih = AllIn-insert k seen in
        rw e ((λ h. ((h.0, (ih.0 h.1).0), (ih.0 h.1).1)), (λ h. (h.0.0, ih.1 (h.0.1, h.1))))
  ]

  AllIn-mark :
      (name : Text) (seen : Map Bool)
      → AllIn (mark name seen) ↔ (AllIn seen × IsLinked handlers name)
  AllIn-mark [] seen = ((λ h. (h, inl refl)), (λ h. h.0))
  AllIn-mark (c ∷ name) seen =
      let e = AllIn-insert (c ∷ name) seen in
      ((λ h. ((e.0 h).0, inr (e.0 h).1)), (λ h. e.1 (h.0, elim h.1 [ inl k ↦ cc | inr k ↦ k ])))

  missing-eq-nil :
      (kind : Text) (names : List Text)
      → (missing kind handlers names ≡ []) ↔ All (λ k. registered handlers k ≡ true) names
  unfolding missing
  missing-eq-nil kind [] = ((λ h. tt), (λ h. refl))
  missing-eq-nil kind (name ∷ names) =
      let ih = missing-eq-nil kind names in
      elim (Bool-cases (registered handlers name)) [
        | inl e ↦ rw e ((λ h. (refl, ih.0 h)), (λ h. ih.1 h.1))
        | inr e ↦ rw e ((λ h. cc), (λ h. cc (h.0)))
      ]

module _ (protocols adapters : Map Bool) where
  IsAllSeen : Seen → Type 0
  IsAllSeen seen = AllIn protocols seen.protocols × AllIn adapters seen.adapters

  see_surfaces_iff :
      (surfaces : Map Surface) (seen : Seen)
      → IsAllSeen (see_surfaces surfaces seen)
        ↔ (IsAllSeen seen × All (λ e. HasHandlers protocols adapters e.1) surfaces)
  unfolding see_surfaces IsAllSeen
  see_surfaces_iff [] seen = ((λ h. (h, tt)), (λ h. h.0))
  see_surfaces_iff ((id, s) ∷ rest) seen =
      let ih = see_surfaces_iff rest (record {
        protocols = mark s.protocol seen.protocols;
        adapters = mark s.adapter seen.adapters;
      }) in
      let p = AllIn-mark protocols s.protocol seen.protocols in
      let a = AllIn-mark adapters s.adapter seen.adapters in
      (
        (λ h.
            let (here, later) = ih.0 h in
            (((p.0 here.0).0, (a.0 here.1).0), (((p.0 here.0).1, (a.0 here.1).1), later))),
        (λ h. ih.1 ((p.1 (h.0.0, h.1.0.0), a.1 (h.0.1, h.1.0.1)), h.1.1)),
      )

  see_provider_iff :
      (p : Provider) (seen : Seen)
      → IsAllSeen (see_provider p seen) ↔ (IsAllSeen seen × IsCovered protocols adapters p)
  unfolding see_provider IsAllSeen
  see_provider_iff p seen =
      let s = see_surfaces_iff p.surfaces seen in
      let m = AllIn-mark protocols p.protocol (see_surfaces p.surfaces seen).protocols in
      (
        (λ h.
            let (before, linked) = m.0 h.0 in
            let (start, all_linked) = s.0 (before, h.1) in (start, (all_linked, linked))),
        (λ h. let rest = s.1 (h.0, h.1.0) in (m.1 (rest.0, h.1.1), rest.1)),
      )

  see_providers_iff :
      (ps : Map Provider) (seen : Seen)
      → IsAllSeen (see_providers ps seen)
        ↔ (IsAllSeen seen × All (λ e. IsCovered protocols adapters e.1) ps)
  unfolding see_providers
  see_providers_iff [] seen = ((λ h. (h, tt)), (λ h. h.0))
  see_providers_iff ((name, p) ∷ rest) seen =
      let ih = see_providers_iff rest (see_provider p seen) in
      let e = see_provider_iff p seen in
      (
        (λ h. let (here, later) = ih.0 h in ((e.0 here).0, ((e.0 here).1, later))),
        (λ h. ih.1 (e.1 (h.0, h.1.0), h.1.1)),
      )

append-eq-nil : (xs ys : List Text) → (xs ++ ys ≡ []) ↔ ((xs ≡ []) × (ys ≡ []))
append-eq-nil [] ys = ((λ h. (refl, h)), (λ h. h.1))
append-eq-nil (x ∷ xs) ys = ((λ h. cc), (λ h. cc (h.0)))

-- Doctor reports nothing exactly when every provider is covered: the protocol of the provider, and
-- the protocol and the adapter of each of its surfaces, is empty or registered.
pub doctor-eq-nil :
    (doc : Document) (protocols adapters : Map Bool)
    → (doctor doc protocols adapters ≡ [])
      ↔ All (λ e. IsCovered protocols adapters e.1) doc.providers
unfolding doctor registered_routes IsAllSeen
doctor-eq-nil doc protocols adapters =
    let start : Seen = record { protocols = []; adapters = [] } in
    let seen = see_providers doc.providers start in
    let e = see_providers_iff protocols adapters doc.providers start in
    let split =
      append-eq-nil (missing (codes "protocol:") protocols (keys seen.protocols))
        (missing (codes "adapter:") adapters (keys seen.adapters)) in
    let p = missing-eq-nil protocols (codes "protocol:") (keys seen.protocols) in
    let a = missing-eq-nil adapters (codes "adapter:") (keys seen.adapters) in
    (
      (λ h. (e.0 (p.0 (split.0 h).0, a.0 (split.0 h).1)).1),
      (λ h. let all_seen = e.1 ((tt, tt), h) in split.1 (p.1 all_seen.0, a.1 all_seen.1)),
    )
