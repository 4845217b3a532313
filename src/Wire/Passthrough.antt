-- ===== src/Wire/Passthrough.antt =====
-- The handlers that relay a request as it is (passthrough/), and the exchange with the upstream
-- (observability/http.go). net/http's client, its reading of a URL and the trace propagator are
-- arguments.
pub mod Served
use daigate.Prelude.{
  Text, [], codes, text_eq, has_prefix, is_empty, if◌then◌else◌, ◌||◌, not, Bool, Option, none,
  some, ok, err,
}
use daigate.Http.{Header}
use daigate.Catalog.Wires.{wire_openai_chat, wire_anthropic_msg, wire_openai_responses}
use daigate.Catalog.Routing.{Target}
use daigate.Credential.Inject.{Lower, Route, copy_headers, apply_route}
use daigate.Upstream.Url.{join_url, image_upstream_path, video_upstream_path}
use daigate.Wire.Dispatch.{
  ForwardCall, Exchange, broken, Handler, Registry, register_chat, register_embed, register_image,
  register_speech, register_transcription, register_video,
}
use daigate.Wire.Engine.{method_post, method_get}

pub record UpstreamRequest : Type 0 where
  pub method : Text
  pub url : Text
  pub headers : Header
  pub body : Option Text

-- `parses` is the success of http.NewRequestWithContext, `send` is Client.Do and `trace` the
-- propagator's Inject.
pub record Net : Type 0 where
  pub parses : Text → Bool
  pub send : UpstreamRequest → Exchange
  pub trace : Header → Header
  pub lower : Lower

unfoldable pub http_do : Net → UpstreamRequest → Exchange
http_do net req = net.send (record req { headers = net.trace req.headers })

-- The URL of `relay`: an absolute path is the URL itself.
unfoldable pub relay_url : Target → Text → Text
relay_url t path =
    if has_prefix path (codes "http://") || has_prefix path (codes "https://")
    then path
    else join_url t.base_url path

abbrev no_default : Route
no_default = record { spec = []; preset = [] }

-- relay up to the exchange; `none` where it returns an error.
unfoldable pub relay_request : Net → ForwardCall → Text → Text → Option UpstreamRequest
unfolding relay_url copy_headers
relay_request net call method path =
    let url = relay_url call.target path in
    let route : Route = record { spec = call.target.inject; preset = call.target.inject_preset } in
    let applied =
      apply_route net.lower call.material (copy_headers [] call.headers) route no_default in
    if not (net.parses url) then none else elim applied.0 [
      | err e ↦ none
      | ok u ↦ some (record { method = method; url = url; headers = applied.1; body = call.body })
    ]

unfoldable pub relay : Net → ForwardCall → Text → Text → Exchange
unfolding http_do
relay net call method path = elim (relay_request net call method path) [
  | none ↦ broken
  | some req ↦ http_do net req
]

pub record ChatHandler : Type 0 where
  pub protocol_name : Text
  pub wire_id : Text
  pub path : Text

unfoldable pub upstream_path : ChatHandler → Text
upstream_path h =
    if not (is_empty h.path)
    then h.path
    else if text_eq h.wire_id wire_anthropic_msg
    then codes "/v1/messages"
    else codes "/v1/chat/completions"

module _ (net : Net) where
  unfoldable pub forward_chat : ChatHandler → Handler
  forward_chat h call = relay net call method_post (upstream_path h)

  unfoldable pub forward_embed : Handler
  forward_embed call = relay net call method_post (codes "/v1/embeddings")

  unfoldable pub forward_image : Handler
  forward_image call =
      relay net call method_post (image_upstream_path call.target.base_url call.path)

  unfoldable pub forward_speech : Handler
  forward_speech call = relay net call method_post (codes "/v1/audio/speech")

  unfoldable pub forward_transcription : Handler
  forward_transcription call = relay net call method_post (codes "/v1/audio/transcriptions")

  abbrev video_method : Option Text → Text
  video_method none = method_get
  video_method (some body) = method_post

  unfoldable pub forward_video : Handler
  forward_video call =
      relay net call (video_method call.body) (video_upstream_path call.target.base_url call.path)

  abbrev chat_handler_of : Text → Text → Text → ChatHandler
  chat_handler_of protocol wire path = record {
    protocol_name = protocol;
    wire_id = wire;
    path = path;
  }

  abbrev add_chat : ChatHandler → Registry → Registry
  add_chat h reg = register_chat reg h.protocol_name (forward_chat h)

  -- Adapter.Register
  unfoldable pub register : Registry → Registry
  unfolding register_chat register_embed register_image register_speech register_transcription
      register_video forward_chat forward_embed forward_image forward_speech forward_transcription
      forward_video
  register reg =
      let reg₁ =
        add_chat (chat_handler_of (codes "openai-chat-completions") wire_openai_chat []) reg in
      let reg₂ =
        add_chat (chat_handler_of (codes "anthropic-messages") wire_anthropic_msg []) reg₁ in
      let responses =
        chat_handler_of (codes "openai-responses") wire_openai_responses (codes "/v1/responses") in
      let reg₃ = add_chat responses reg₂ in
      let reg₄ = register_embed reg₃ (codes "openai-embeddings") forward_embed in
      let reg₅ = register_image reg₄ (codes "openai-images") forward_image in
      let reg₆ = register_speech reg₅ (codes "openai-tts") forward_speech in
      let reg₇ =
        register_transcription reg₆ (codes "openai-transcriptions") forward_transcription in
      register_video reg₇ (codes "openai-videos") forward_video
