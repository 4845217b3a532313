-- ===== src/Credential/Inject/Isolation.antt =====
-- What an upstream sees of the client's own credentials.
use daigate.Prelude.{
  Text, Map, List, [], ◌∷◌, ◌++◌, codes, text_eq, text_eq_iff, is_empty, trim_space, lookup, delete,
  lookup-insert, lookup-delete, if◌then◌else◌, ◌||◌, not, Bool, true, false, Option, none, some,
  Result, Result-cases, ◌≡◌, ◌≢◌, refl, sym, ◌∙◌, ap, arith, Bool-cases, inl, inr,
}
use daigate.Http.{Header, header_set, header_del, canonical_key}
use daigate.Catalog.Document.{is_nil}
use daigate.Credential.Material.{Kind, api_key, oauth, other_kind, Material}
use daigate.Credential.Inject.{
  Lower, InjectError, Route, authorization, x_api_key, strip_client, substitute, material_values,
  canonical_header, apply_header, apply_spec, apply_catalog_preset, apply_chosen, apply_route,
  to_lower,
}

abbrev pub canonical_x_api_key : Text
canonical_x_api_key = codes "X-Api-Key"

-- The same values under every name.
abbrev pub IsSame : Header → Header → Type 0
IsSame h h' = (k : Text) → lookup k h ≡ lookup k h'

-- The same values under every name but the two that carry a client's credential.
abbrev pub IsSameBesideAuth : Header → Header → Type 0
IsSameBesideAuth h h' =
    (k : Text) → k ≢ authorization → k ≢ canonical_x_api_key → lookup k h ≡ lookup k h'

-- The same outcome, with the same headers.
abbrev pub IsSameResult :
    Result InjectError Unit × Header → Result InjectError Unit × Header → Type 0
IsSameResult (e, h) (e', h') = (e ≡ e') × IsSame h h'

canonical_names :
    (canonical_key authorization ≡ authorization)
    × (canonical_key x_api_key ≡ canonical_x_api_key)
    × (canonical_key canonical_x_api_key ≡ canonical_x_api_key)
unfolding canonical_key codes
canonical_names = (refl, refl, refl)

lookup-strip_client :
    (h : Header) (k : Text)
    → lookup k (strip_client h)
      ≡ (if text_eq authorization k || text_eq canonical_x_api_key k then none else lookup k h)
unfolding strip_client header_del
lookup-strip_client h k =
    let (a, x, y) = canonical_names in
    let h₁ = delete (canonical_key authorization) h in
    let h₂ = delete (canonical_key x_api_key) h₁ in
    lookup-delete (canonical_key canonical_x_api_key) k h₂
    ∙ rw
        (
          lookup-delete (canonical_key x_api_key) k h₁,
          lookup-delete (canonical_key authorization) k h,
          a,
          x,
          y,
        )
        (ground arith)

strip_client-IsSame :
    (h h' : Header) → IsSameBesideAuth h h' → IsSame (strip_client h) (strip_client h')
strip_client-IsSame h h' same k = ground (
  arith,
  lookup-strip_client h k,
  lookup-strip_client h' k,
  text_eq_iff authorization k,
  text_eq_iff canonical_x_api_key k,
  same k,
)

header_set-IsSame :
    (name value : Text) (h h' : Header)
    → IsSame h h'
    → IsSame (header_set name value h) (header_set name value h')
unfolding header_set
header_set-IsSame name value h h' same k =
    lookup-insert (canonical_key name) k (value ∷ []) h
    ∙ ap
        (λ (o : Option (List Text)).
          if text_eq (canonical_key name) k then some (value ∷ []) else o)
        (same k)
    ∙ sym (lookup-insert (canonical_key name) k (value ∷ []) h')

if-IsSameResult :
    (b : Bool) (x x' y y' : Result InjectError Unit × Header)
    → IsSameResult x x'
    → IsSameResult y y'
    → IsSameResult (if b then x else y) (if b then x' else y')
if-IsSameResult true x x' y y' hx hy = hx
if-IsSameResult false x x' y y' hx hy = hy

module _ (lower : Lower) (m : Material) where
  apply_spec-IsSame :
      (spec : Map Text) (h h' : Header)
      → IsSame h h'
      → IsSameResult (apply_spec lower m spec h) (apply_spec lower m spec h')
  unfolding apply_spec apply_header
  apply_spec-IsSame [] h h' same = (refl, same)
  apply_spec-IsSame ((name, tmpl) ∷ spec) h h' same =
      elim (Result-cases (substitute tmpl (material_values m))) [
        | inr (e, failed) ↦ rw (apply_spec, apply_header, failed) (refl, same)
        | inl (val, fine) ↦ elim (Bool-cases (is_empty val)) [
          | inl nothing ↦ rw (apply_spec, apply_header, fine, nothing) (refl, same)
          | inr something ↦
              let name' = canonical_header lower name in
              rw (apply_spec, apply_header, fine, something)
                (apply_spec-IsSame spec (header_set name' val h) (header_set name' val h')
                  (header_set-IsSame name' val h h' same))
        ]
      ]

  apply_catalog_preset-IsSame :
      (preset : Text) (h h' : Header)
      → IsSame h h'
      → IsSameResult
          (apply_catalog_preset lower m preset h)
          (apply_catalog_preset lower m preset h')
  unfolding apply_catalog_preset
  apply_catalog_preset-IsSame preset h h' same = of_kind m.kind refl
    where
      p : Text
      p = to_lower lower (trim_space preset)

      of_kind :
          (k : Kind)
          → m.kind ≡ k
          → IsSameResult
              (apply_catalog_preset lower m preset h)
              (apply_catalog_preset lower m preset h')
      of_kind api_key e =
          let bearer =
            header_set-IsSame authorization (codes "Bearer " ++ trim_space m.api_key) h h' same in
          let raw = header_set-IsSame x_api_key (trim_space m.api_key) h h' same in
          rw (apply_catalog_preset, e)
            (if-IsSameResult (is_empty p || text_eq p (codes "bearer")) _ _ _ _ (refl, bearer)
              (if-IsSameResult (text_eq p x_api_key) _ _ _ _ (refl, raw) (refl, same)))
      of_kind oauth e =
          let bearer =
            header_set-IsSame authorization (codes "Bearer " ++ trim_space m.access_token) h h'
              same in
          rw (apply_catalog_preset, e)
            (if-IsSameResult (is_empty p || text_eq p (codes "bearer")) _ _ _ _ (refl, bearer)
              (if-IsSameResult (text_eq p x_api_key) _ _ _ _ (refl, same) (refl, same)))
      of_kind (other_kind k) e = rw (apply_catalog_preset, e) (refl, same)

  apply_chosen-IsSame :
      (h h' : Header) (route adapter_default : Route)
      → IsSame h h'
      → IsSameResult
          (apply_chosen lower m h route adapter_default)
          (apply_chosen lower m h' route adapter_default)
  unfolding apply_chosen
  apply_chosen-IsSame h h' route adapter_default same =
      if-IsSameResult (not (is_nil route.spec)) _ _ _ _ (apply_spec-IsSame route.spec h h' same) (
        if-IsSameResult (not (is_empty (trim_space route.preset))) _ _ _ _
          (apply_catalog_preset-IsSame (trim_space route.preset) h h' same)
          (if-IsSameResult (not (is_nil adapter_default.spec)) _ _ _ _
            (apply_spec-IsSame adapter_default.spec h h' same)
            (apply_catalog_preset-IsSame adapter_default.preset h h' same)))

  -- The client's own credentials reach no upstream: two requests that differ in nothing but their
  -- Authorization and X-Api-Key headers leave ApplyRoute with the same headers and the same error,
  -- if any.
  pub apply_route-IsSame :
      (h h' : Header) (route adapter_default : Route)
      → IsSameBesideAuth h h'
      → IsSameResult
          (apply_route lower m h route adapter_default)
          (apply_route lower m h' route adapter_default)
  unfolding apply_route
  apply_route-IsSame h h' route adapter_default same =
      apply_chosen-IsSame (strip_client h) (strip_client h') route adapter_default
        (strip_client-IsSame h h' same)
