-- ===== src/Wire/Engine.antt =====
-- Engine.handleWire (wire/wire.go). What the request's body says about the model, the JSON codec of
-- the body, the credential store and the handlers are arguments; the result is the answer, with
-- every call of a handler and the recorder's fields.
pub mod Failover
use daigate.Prelude.{
  Text, Map, ℕ, zero, suc, ◌+◌, List, [], ◌∷◌, ◌++◌, codes, is_empty, text_eq, trim_space, lookup,
  insert, if◌then◌else◌, ◌&&◌, ◌||◌, not, Bool, true, false, Option, none, some, Result, ok, err,
}
use daigate.Http.{Header, header_get, header_del}
use daigate.Catalog.Document.{Catalog, is_nil}
use daigate.Catalog.Wires.{
  wire_openai_images_gen, wire_openai_audio_speech, wire_openai_audio_transcriptions,
  wire_openai_videos, strategy_failover, modality_hint,
}
use daigate.Catalog.Routing.{RouteError, index_out_of_range, Target, RoutePlan, or_zero}
use daigate.Catalog.Resolve.{resolve_with_modality}
use daigate.Keyring.Scopes.{ScopeError, authorize}
use daigate.Keyring.Keys.{Principal}
use daigate.Credential.Material.{Material}
use daigate.Upstream.Retry.{retryable}
use daigate.Wire.Dispatch.{
  ForwardCall, Response, Exchange, answered, broken, Handler, Registry, handler_for,
}

-- encoding/json on the objects of a request body: member texts by name.
pub record Codec : Type 0 where
  pub decode_object : Text → Option (Map Text)
  pub encode_object : Map Text → Text
  pub encode_string : Text → Text

pub data Refusal : Type 0 where
  unauthorized method_not_allowed model_required forbidden_scope : Refusal
  unresolved : RouteError → Refusal
  credential_unavailable route_not_registered upstream_error : Refusal

-- What the client receives: a refusal, or the response of an upstream.
pub data Reply : Type 0 where
  refused : Refusal → Reply
  relayed : Response → Reply

-- http.Error's status of each refusal.
abbrev pub status_of : Refusal → ℕ
status_of unauthorized = 401
status_of method_not_allowed = 405
status_of model_required = 400
status_of forbidden_scope = 403
status_of (unresolved e) = 400
status_of credential_unavailable = 502
status_of route_not_registered = 502
status_of upstream_error = 502

-- The reply, if one is written, and the handler calls in order.
pub record Run : Type 0 where
  pub reply : Option Reply
  pub calls : List ForwardCall

abbrev pub stop : Reply → List ForwardCall → Run
stop reply calls = record { reply = some reply; calls = calls }

abbrev pub after_call : ForwardCall → Run → Run
after_call call run = record run { calls = call ∷ run.calls }

unfoldable pub rewrite_model_body : Codec → Text → Text → Text
rewrite_model_body codec raw upstream_model =
    if is_empty upstream_model then raw else elim (codec.decode_object raw) [
      | none ↦ raw
      | some m ↦ codec.encode_object (insert (codes "model") (codec.encode_string upstream_model) m)
    ]

unfoldable pub request_body : Codec → Option Text → Text → Option Text
unfolding rewrite_model_body
request_body codec none upstream_model = none
request_body codec (some raw) upstream_model = some (rewrite_model_body codec raw upstream_model)

-- What the loop over the targets uses of its surroundings. The store is asked anew on each attempt.
pub record Surroundings : Type 0 where
  pub codec : Codec
  pub registry : Registry
  pub get : ℕ → Text → Option Material
  pub wire : Text
  pub path : Text
  pub raw : Option Text
  pub headers : Header
  pub failover : Bool

module _ (env : Surroundings) where
  unfoldable pub call_for : ℕ → Target → Material → ForwardCall
  call_for i t mat = record {
    attempt = i;
    target = t;
    material = mat;
    path = env.path;
    body = request_body env.codec env.raw t.upstream_model;
    headers = env.headers;
  }

  -- The loop over plan.Targets, from position `i` on.
  unfoldable pub attempt : ℕ → List Target → Run
  attempt i [] = record { reply = none; calls = [] }
  attempt i (t ∷ ts) =
      let next = attempt (i + 1) ts in
      let may_continue = env.failover && not (is_nil ts) in
      elim (env.get i t.credential_profile) [
        | none ↦ if may_continue then next else stop (refused credential_unavailable) []
        | some mat ↦ elim (handler_for env.registry env.wire t) [
          | none ↦
              if may_continue && retryable 0 true
              then next
              else stop (refused route_not_registered) []
          | some forward ↦
              (let call = call_for i t mat in
                elim (forward call) [
                  | broken ↦
                      if may_continue && retryable 0 true
                      then after_call call next
                      else stop (refused upstream_error) (call ∷ [])
                  | answered resp ↦
                      if env.failover && retryable resp.status false && not (is_nil ts)
                      then after_call call next
                      else stop (relayed resp) (call ∷ [])
                ])
        ]
      ]

-- An authenticated request as `handleWire` sees it; `read_model` is the result of `readIngress`,
-- and `none` its error.
pub record Request : Type 0 where
  pub method : Text
  pub path : Text
  pub headers : Header
  pub read_model : Option Text
  pub raw : Option Text

abbrev pub method_post : Text
method_post = codes "POST"

abbrev pub method_get : Text
method_get = codes "GET"

-- `true` is the result nil of `validateWireMethod`.
unfoldable pub validate_wire_method : Text → Text → Text → Bool
validate_wire_method method path wire =
    if text_eq wire wire_openai_images_gen
      || text_eq wire wire_openai_audio_speech
      || text_eq wire wire_openai_audio_transcriptions
    then text_eq method method_post
    else if text_eq wire wire_openai_videos
    then (if text_eq path (codes "/v1/videos/generations")
        then text_eq method method_post
        else text_eq method method_get)
    else true

abbrev pub header_catalog_modality : Text
header_catalog_modality = codes "X-Catalog-Modality"

-- StripIngressControlHeaders
unfoldable pub strip_ingress_control_headers : Header → Header
strip_ingress_control_headers h = header_del header_catalog_modality h

-- The engine's parts that `handleWire` uses.
pub record Engine : Type 0 where
  pub codec : Codec
  pub registry : Registry
  pub get : ℕ → Text → Option Material

unfoldable pub surroundings : Engine → Request → Text → RoutePlan → Surroundings
unfolding strip_ingress_control_headers
surroundings e r wire plan = record {
  codec = e.codec;
  registry = e.registry;
  get = e.get;
  wire = wire;
  path = r.path;
  raw = r.raw;
  headers = strip_ingress_control_headers r.headers;
  failover = text_eq plan.strategy strategy_failover;
}

-- The answer to an error of the resolution. A panic ends the handler with no answer written: net/http
-- recovers it and closes the connection.
unfoldable pub refuse_route : RouteError → Run
refuse_route index_out_of_range = record { reply = none; calls = [] }
refuse_route route_error = stop (refused (unresolved route_error)) []

unfoldable pub serve_plan : Engine → Request → Text → Result RouteError RoutePlan → Run
unfolding refuse_route
serve_plan e r wire (err route_error) = refuse_route route_error
serve_plan e r wire (ok plan) = attempt (surroundings e r wire plan) 0 plan.targets

-- handleWire for a model that is not empty.
unfoldable pub serve_model : Engine → Catalog → Request → Principal → Text → Text → Run × Catalog
serve_model e cat r p wire model = elim (authorize (or_zero [] p.scopes) model wire) [
  | err denied ↦ (stop (refused forbidden_scope) [], cat)
  | ok _ ↦
      (let hint = modality_hint (header_get r.headers header_catalog_modality) wire in
        let (plan, cat') = resolve_with_modality cat model wire hint in
        (serve_plan e r wire plan, cat'))
]

unfoldable pub handle_wire : Engine → Catalog → Request → Principal → Text → Run × Catalog
handle_wire e cat r p wire =
    if not (validate_wire_method r.method r.path wire)
    then (stop (refused method_not_allowed) [], cat)
    else elim r.read_model [
      | none ↦ (stop (refused model_required) [], cat)
      | some model ↦
          if is_empty model
          then (stop (refused model_required) [], cat)
          else serve_model e cat r p wire model
    ]
