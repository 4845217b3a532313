-- ===== src/Wire/Ingress/Gate.antt =====
-- What a request has passed before an upstream is called or a rotation moves.
use daigate.Prelude.{
  Text, [], codes, is_empty, true, false, some, Result, ok, ◌≡◌, ◌⊎◌, inl, inr, sym, arith,
  Bool-cases, Option-cases, Result-cases, subst,
}
use daigate.Http.{header_get}
use daigate.Catalog.Document.{Catalog}
use daigate.Catalog.Routing.{or_zero}
use daigate.Keyring.Scopes.{authorize}
use daigate.Keyring.Secret.{bearer_token}
use daigate.Keyring.Keys.{Principal, KeyError}
use daigate.Wire.Engine.{Request, Engine, Run, serve_model, handle_wire, validate_wire_method}
use daigate.Wire.Ingress.{authenticate, with_auth}

-- A request that has passed every check up to the resolution.
pub record IsAdmitted (verify : Text → Result KeyError Principal) (cat : Catalog) (r : Request)
    (wire : Text) : Type 0 where
  pub token : Text
  pub principal : Principal
  pub model : Text
  pub bearer : bearer_token (header_get r.headers (codes "Authorization")) ≡ ok token
  pub verified : verify token ≡ ok principal
  pub method : validate_wire_method r.method r.path wire ≡ true
  pub named : r.read_model ≡ some model
  pub given : is_empty model ≡ false
  pub authorized : authorize (or_zero [] principal.scopes) model wire ≡ ok tt

-- A result that leaves the world alone: no handler was called, no counter moved.
abbrev pub IsInert : Catalog → Run × Catalog → Type 0
IsInert cat (run, cat') = (run.calls ≡ []) × (cat' ≡ cat)

authenticate_sound :
    (verify : Text → Result KeyError Principal) (r : Request) {p : Principal}
    → authenticate verify r ≡ some p
    → (token : Text) × (bearer_token (header_get r.headers (codes "Authorization")) ≡ ok token)
      × (verify token ≡ ok p)
unfolding authenticate
authenticate_sound verify r h =
    elim (Result-cases (bearer_token (header_get r.headers (codes "Authorization")))) [
      | inr (e, failed) ↦ absurd (ground (arith, failed))
      | inl (token, bearer) ↦ elim (Result-cases (verify token)) [
        | inr (e, failed) ↦ absurd (ground (arith, bearer, failed))
        | inl (q, verified) ↦ (token, bearer, ground (arith, bearer, verified))
      ]
    ]

module _ (verify : Text → Result KeyError Principal) (e : Engine) (cat : Catalog) (r : Request)
    (wire : Text) where
  serve_model-gate :
      (p : Principal) (model : Text)
      → (authorize (or_zero [] p.scopes) model wire ≡ ok tt)
        ⊎ IsInert cat (serve_model e cat r p wire model)
  unfolding serve_model
  serve_model-gate p model = elim (Result-cases (authorize (or_zero [] p.scopes) model wire)) [
    | inl (u, allowed) ↦ inl (ground (arith, allowed))
    | inr (d, denied) ↦ inr (ground (arith, denied))
  ]

  handle_wire-gate :
      (p : Principal)
      → ((model : Text) × (validate_wire_method r.method r.path wire ≡ true)
          × (r.read_model ≡ some model)
          × (is_empty model ≡ false)
          × (authorize (or_zero [] p.scopes) model wire ≡ ok tt))
        ⊎ IsInert cat (handle_wire e cat r p wire)
  unfolding handle_wire
  handle_wire-gate p = elim (Bool-cases (validate_wire_method r.method r.path wire)) [
    | inr bad ↦ inr (ground (arith, bad))
    | inl good ↦ elim (Option-cases r.read_model) [
      | inl unread ↦ inr (ground (arith, good, unread))
      | inr (model, read) ↦ elim (Bool-cases (is_empty model)) [
        | inl nothing ↦ inr (ground (arith, good, read, nothing))
        | inr something ↦
            let run : handle_wire e cat r p wire ≡ serve_model e cat r p wire model =
              ground (arith, good, read, something) in
            elim (serve_model-gate p model) [
              | inl allowed ↦ inl (model, good, read, something, allowed)
              | inr inert ↦ inr (subst (IsInert cat) (sym run) inert)
            ]
      ]
    ]
  ]

  -- Either a request has passed every check (a bearer token that the key store accepts, the method
  -- of the wire, a model that is not empty, the scopes of the key for this model and wire), or no handler is called
  -- and the catalog's counters stay as they are.
  pub with_auth-gate : IsAdmitted verify cat r wire ⊎ IsInert cat (with_auth verify e cat r wire)
  unfolding with_auth
  with_auth-gate = elim (Option-cases (authenticate verify r)) [
    | inl unknown ↦ inr (ground (arith, unknown))
    | inr (p, known) ↦
        let run : with_auth verify e cat r wire ≡ handle_wire e cat r p wire =
          ground (arith, known) in
        let (token, bearer, verified) = authenticate_sound verify r {p = p} known in
        elim (handle_wire-gate p) [
          | inr inert ↦ inr (subst (IsInert cat) (sym run) inert)
          | inl (model, method, named, given, authorized) ↦ inl (record {
            token = token;
            principal = p;
            model = model;
            bearer = bearer;
            verified = verified;
            method = method;
            named = named;
            given = given;
            authorized = authorized;
          })
        ]
  ]
