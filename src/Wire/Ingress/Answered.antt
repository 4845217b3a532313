-- ===== src/Wire/Ingress/Answered.antt =====
-- That a request is answered (withAuth and handleWire of wire/wire.go).
use daigate.Prelude.{
  Text, ℕ, ◌<◌, ◌^◌, List, [], ◌∷◌, length, none, Result, ok, err, ◌≡◌, ◌≢◌, inl, inr, refl, sym,
  ap, arith, Bool-cases, Option-cases, Result-cases, All, IsDistinct, subst,
}
use daigate.Http.{header_get}
use daigate.Catalog.Document.{Catalog}
use daigate.Catalog.Wires.{modality_hint}
use daigate.Catalog.Routing.{Target, RouteError, index_out_of_range, RoutePlan, or_zero}
use daigate.Catalog.Resolve.{resolve_with_modality}
use daigate.Catalog.Resolve.Plan.{resolve_with_modality-IsResolved}
use daigate.Catalog.Resolve.Total.{resolve_with_modality-ne-panic}
use daigate.Keyring.Scopes.{authorize}
use daigate.Keyring.Keys.{Principal, KeyError}
use daigate.Wire.Engine.{
  Surroundings, Request, Engine, attempt, surroundings, refuse_route, serve_plan, serve_model,
  handle_wire, validate_wire_method, header_catalog_modality,
}
use daigate.Wire.Engine.Failover.{attempt-IsTried}
use daigate.Wire.Ingress.{authenticate, with_auth}

attempt-replies :
    (env : Surroundings) (i : ℕ) (t : Target) (ts : List Target)
    → (attempt env i (t ∷ ts)).reply ≢ none
attempt-replies env i t ts missing =
    let tried = attempt-IsTried env i t ts in cc (tried.replied, missing)

refuse_route-replies : (e : RouteError) → e ≢ index_out_of_range → (refuse_route e).reply ≢ none
unfolding refuse_route
refuse_route-replies index_out_of_range h = absurd (h refl)
refuse_route-replies _ h = cc

module _ (verify : Text → Result KeyError Principal) (e : Engine) (cat : Catalog) (r : Request)
    (wire : Text) where
  serve_plan-replies :
      (plan : Result RouteError RoutePlan)
      → plan ≢ err index_out_of_range
      → ((p : RoutePlan) → plan ≡ ok p → 0 < length p.targets)
      → (serve_plan e r wire plan).reply ≢ none
  unfolding serve_plan
  serve_plan-replies (err failed) known h =
      refuse_route-replies failed (λ same. known (ap err same))
  serve_plan-replies (ok plan) known h = replied plan.targets refl
    where
      replied :
          (ts : List Target)
          → plan.targets ≡ ts
          → (attempt (surroundings e r wire plan) 0 plan.targets).reply ≢ none
      replied [] same = absurd (omega (arith, h plan refl, ap length same))
      replied (t ∷ ts) same =
          subst (λ l. (attempt (surroundings e r wire plan) 0 l).reply ≢ none) (sym same)
            (attempt-replies (surroundings e r wire plan) 0 t ts)

  serve_model-replies :
      (p : Principal) (model : Text)
      → All (λ m. IsDistinct m.1.modalities) cat.doc.models
      → All (λ n. n.1 < 2 ^ 63) cat.rr
      → (serve_model e cat r p wire model).0.reply ≢ none
  unfolding serve_model
  serve_model-replies p model d small =
      elim (Result-cases (authorize (or_zero [] p.scopes) model wire)) [
        | inr (e', denied) ↦ ground (arith, denied)
        | inl (u, allowed) ↦
            let hint = modality_hint (header_get r.headers header_catalog_modality) wire in
            let (plan, cat') = resolve_with_modality cat model wire hint in
            let answered =
              serve_plan-replies plan (resolve_with_modality-ne-panic cat model wire hint small)
                (λ q same.
                  (resolve_with_modality-IsResolved cat model wire hint q cat' d
                    (ap (λ x. (x, cat')) same)).attempted) in
            ground (arith, allowed, answered)
      ]

  -- Every request to an authenticated wire is answered, with an upstream's response or a refusal,
  -- while every rotation counter is below 2^63. The document lists no modality of a model twice.
  pub with_auth-replies :
      All (λ m. IsDistinct m.1.modalities) cat.doc.models
      → All (λ n. n.1 < 2 ^ 63) cat.rr
      → (with_auth verify e cat r wire).0.reply ≢ none
  unfolding with_auth handle_wire
  with_auth-replies d small = elim (Option-cases (authenticate verify r)) [
    | inl unknown ↦ ground (arith, unknown)
    | inr (p, known) ↦ elim (Bool-cases (validate_wire_method r.method r.path wire)) [
      | inr bad ↦ ground (arith, known, bad)
      | inl good ↦ elim (Option-cases r.read_model) [
        | inl unread ↦ ground (arith, known, good, unread)
        | inr (model, read) ↦ ground (arith, known, good, read, serve_model-replies p model d small)
      ]
    ]
  ]
