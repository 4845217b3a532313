-- ===== src/Wire/Handler.antt =====
-- The HTTP handler of the engine (wire/wire.go): its mux, the reading of a request's model and body,
-- and the list of models. encoding/json, mime, mime/multipart and the path cleaning of http.ServeMux
-- are arguments.

pub mod Limits
use daigate.Prelude.{
  Text, Map, ℕ, ◌+◌, List, [], ◌∷◌, codes, any, take, drop, length, leb, ltb, ◌==◌, is_empty,
  text_eq, has_prefix, trim_space, lookup, if◌then◌else◌, ◌&&◌, ◌||◌, not, Bool, Option, none, some,
  Result,
}
use daigate.Http.{Header, header_get, max_request_body}
use daigate.Catalog.Document.{Catalog}
use daigate.Catalog.Wires.{
  wire_openai_chat, wire_anthropic_msg, wire_openai_embed, wire_openai_responses,
  wire_openai_images_gen, wire_openai_audio_speech, wire_openai_audio_transcriptions,
  wire_openai_videos,
}
use daigate.Catalog.Listing.{ModelsListResponse, list_models_for}
use daigate.Keyring.Keys.{Principal, KeyError}
use daigate.Wire.Engine.{Request, Engine, Run, method_get, method_post}
use daigate.Wire.Ingress.{authenticate, with_auth}

-- A body as it is read: its bytes, and whether reading ends in an error after them.
pub record Body : Type 0 where
  pub content : Text
  pub fails : Bool

-- A part of a multipart body; `fails` is an error of reading it.
pub record Part : Type 0 where
  pub form_name : Text
  pub content : Text
  pub fails : Bool

-- What the libraries read: the field "model" after json.Unmarshal, the parameters of a media type, and
-- the parts of a body with whether an error follows them.
pub record Readers : Type 0 where
  pub model_field : Text → Text
  pub media_params : Text → Option (Map Text)
  pub parts_of : Text → Text → List Part × Bool

-- A request as the server gives it; `query_model` is the parameter "model" of its URL.
pub record Incoming : Type 0 where
  pub method : Text
  pub path : Text
  pub headers : Header
  pub query_model : Text
  pub body : Body

-- io.ReadAll on an io.LimitReader of `n` bytes.
unfoldable pub read_at_most : ℕ → Body → Option Text
read_at_most n b =
    if leb n (length b.content)
    then some (take n b.content)
    else if b.fails
    then none
    else some b.content

unfoldable pub read_limited_body : Body → ℕ → Option Text
read_limited_body b max = elim (read_at_most (max + 1) b) [
  | none ↦ none
  | some raw ↦ if ltb max (length raw) then none else some raw
]

-- The loop over the parts.
unfoldable pub model_in_parts : List Part → Bool → Option Text
model_in_parts [] broken = if broken then none else some []
model_in_parts (p ∷ parts) broken =
    let rest = model_in_parts parts broken in
    if not (text_eq p.form_name (codes "model"))
    then rest
    else if p.fails
    then none
    else some (trim_space p.content)

module _ (readers : Readers) where
  unfoldable pub model_from_multipart : Text → Text → Option Text
  unfolding model_in_parts
  model_from_multipart raw content_type = elim (readers.media_params content_type) [
    | none ↦ none
    | some params ↦ elim (lookup (codes "boundary") params) [
      | none ↦ some []
      | some boundary ↦
          if is_empty boundary
          then some []
          else (let (parts, broken) = readers.parts_of raw boundary in model_in_parts parts broken)
    ]
  ]

  -- readModel: the model and the body; `none` is an error.
  unfoldable pub read_model : Body → Option (Text × Text)
  unfolding read_limited_body
  read_model b = elim (read_limited_body b max_request_body) [
    | none ↦ none
    | some raw ↦ some (trim_space (readers.model_field raw), raw)
  ]

  unfoldable pub read_multipart : Body → Text → Option (Text × Text)
  unfolding read_limited_body model_from_multipart
  read_multipart b content_type = elim (read_limited_body b max_request_body) [
    | none ↦ none
    | some raw ↦ elim (model_from_multipart raw content_type) [
      | none ↦ none
      | some model ↦ some (model, raw)
    ]
  ]

  -- readIngress: the model, and the body unless it is not read.
  unfoldable pub read_ingress : Incoming → Text → Option (Text × Option Text)
  unfolding read_model read_multipart
  read_ingress r wire =
      let content_type = header_get r.headers (codes "Content-Type") in
      if text_eq wire wire_openai_videos && text_eq r.method method_get
      then some (trim_space r.query_model, none)
      else elim (if has_prefix content_type (codes "multipart/")
          then read_multipart r.body content_type
          else read_model r.body) [ none ↦ none | some (model, raw) ↦ some (model, some raw) ]

  -- The request with what readIngress makes of it.
  unfoldable pub request_of : Incoming → Text → Request
  unfolding read_ingress
  request_of r wire =
      let read = read_ingress r wire in
      record {
        method = r.method;
        path = r.path;
        headers = r.headers;
        read_model = elim read [ none ↦ none | some (model, raw) ↦ some model ];
        raw = elim read [ none ↦ none | some (model, raw) ↦ raw ];
      }

-- What a request to the models endpoint is answered.
pub data ModelsReply : Type 0 where
  models_refused : ℕ → ModelsReply
  models_listed : ModelsListResponse → ModelsReply

-- models
unfoldable pub serve_models : (Text → Result KeyError Principal) → Catalog → Request → ModelsReply
serve_models verify cat r =
    if not (text_eq r.method method_get) then models_refused 405 else elim (authenticate verify r) [
      | none ↦ models_refused 401
      | some p ↦ models_listed (list_models_for cat p.scopes)
    ]

-- Where the mux sends a request.
pub data Endpoint : Type 0 where
  health models redirected not_served wrong_method : Endpoint
  on_wire : Text → Endpoint

abbrev pub method_head : Text
method_head = codes "HEAD"

-- A path, without escapes, that the pattern /v1/videos/{id} matches.
unfoldable pub is_video : Text → Bool
is_video path =
    let id = drop (length (codes "/v1/videos/")) path in
    has_prefix path (codes "/v1/videos/") && not (is_empty id) && not (any (λ c. c == b'/') id)

-- The patterns that only POST matches.
abbrev pub post_wires : Map Text
post_wires =
    (codes "/v1/images/generations", wire_openai_images_gen)
    ∷ (codes "/v1/images/edits", wire_openai_images_gen)
    ∷ (codes "/v1/audio/speech", wire_openai_audio_speech)
    ∷ (codes "/v1/audio/transcriptions", wire_openai_audio_transcriptions)
    ∷ (codes "/v1/videos/generations", wire_openai_videos)
    ∷ []

-- The patterns that every method matches.
abbrev pub any_wires : Map Text
any_wires =
    (codes "/v1/chat/completions", wire_openai_chat)
    ∷ (codes "/v1/messages", wire_anthropic_msg)
    ∷ (codes "/v1/embeddings", wire_openai_embed)
    ∷ (codes "/v1/responses", wire_openai_responses)
    ∷ []

-- Handler's mux. A pattern for GET matches HEAD too; a path that only patterns of other methods match
-- is answered with 405.
unfoldable pub endpoint_of : (Text → Text → Bool) → Text → Text → Endpoint
unfolding is_video
endpoint_of is_clean method path =
    let reads = text_eq method method_get || text_eq method method_head in
    if not (is_clean method path)
    then redirected
    else if text_eq path (codes "/v1/healthz")
    then health
    else if text_eq path (codes "/v1/models")
    then models
    else elim (lookup path any_wires) [
      | some wire ↦ on_wire wire
      | none ↦
          if is_video path && reads
          then on_wire wire_openai_videos
          else elim (lookup path post_wires) [
            | some wire ↦ if text_eq method method_post then on_wire wire else wrong_method
            | none ↦ if is_video path then wrong_method else not_served
          ]
    ]

-- What the client of the engine receives.
pub data Served : Type 0 where
  plain : Endpoint → Served
  listed : ModelsReply → Served
  ran : Run → Served

unfoldable pub serve :
    Readers
    → (Text → Text → Bool)
    → (Text → Result KeyError Principal)
    → Engine
    → Catalog
    → Incoming
    → Served × Catalog
unfolding endpoint_of serve_models request_of
serve readers is_clean verify e cat r = elim (endpoint_of is_clean r.method r.path) [
  | models ↦ (listed (serve_models verify cat (request_of readers r [])), cat)
  | on_wire wire ↦
      (let (run, cat') = with_auth verify e cat (request_of readers r wire) wire in (ran run, cat'))
  | other ↦ (plain other, cat)
]
