-- ===== src/Wire/Dispatch.antt =====
-- The handler of a target (wire/dispatch.go) in the registry of adaptersdk/adapter.go. A handler is
-- linked code of any origin: here it is a function from the call, which names the attempt, to what
-- the upstream exchange gives.
use daigate.Prelude.{
  Text, Map, ℕ, [], is_empty, lookup, insert, if◌then◌else◌, not, text_eq, Option,
}
use daigate.Http.{Header}
use daigate.Catalog.Wires.{
  wire_openai_embed, wire_openai_images_gen, wire_openai_audio_speech,
  wire_openai_audio_transcriptions, wire_openai_videos,
}
use daigate.Catalog.Routing.{Target}
use daigate.Credential.Material.{Material}

-- The arguments of a handler's Forward; `attempt` is the position of the target in the plan.
pub record ForwardCall : Type 0 where
  pub attempt : ℕ
  pub target : Target
  pub material : Material
  pub path : Text
  pub body : Option Text
  pub headers : Header

pub record Response : Type 0 where
  pub status : ℕ
  pub headers : Header
  pub body : Text

-- A response, or an error other than `errRouteNotRegistered`.
pub data Exchange : Type 0 where
  answered : Response → Exchange
  broken : Exchange

abbrev pub Handler : Type 0
Handler = ForwardCall → Exchange

pub record Registry : Type 0 where
  pub chat_handlers : Map Handler
  pub embed_handlers : Map Handler
  pub image_handlers : Map Handler
  pub speech_handlers : Map Handler
  pub transcription_handlers : Map Handler
  pub video_handlers : Map Handler
  pub image_adapters : Map Handler
  pub speech_adapters : Map Handler
  pub embed_adapters : Map Handler
  pub video_adapters : Map Handler
  pub chat_adapters : Map Handler

-- NewRegistry
abbrev pub new_registry : Registry
new_registry = record {
  chat_handlers = [];
  embed_handlers = [];
  image_handlers = [];
  speech_handlers = [];
  transcription_handlers = [];
  video_handlers = [];
  image_adapters = [];
  speech_adapters = [];
  embed_adapters = [];
  video_adapters = [];
  chat_adapters = [];
}

-- The Register functions; the key of a protocol handler is what its Protocol method returns.
unfoldable pub register_chat : Registry → Text → Handler → Registry
register_chat reg protocol h = record reg { chat_handlers = insert protocol h reg.chat_handlers }

unfoldable pub register_embed : Registry → Text → Handler → Registry
register_embed reg protocol h = record reg { embed_handlers = insert protocol h reg.embed_handlers }

unfoldable pub register_image : Registry → Text → Handler → Registry
register_image reg protocol h = record reg { image_handlers = insert protocol h reg.image_handlers }

unfoldable pub register_speech : Registry → Text → Handler → Registry
register_speech reg protocol h = record reg {
  speech_handlers = insert protocol h reg.speech_handlers;
}

unfoldable pub register_transcription : Registry → Text → Handler → Registry
register_transcription reg protocol h = record reg {
  transcription_handlers = insert protocol h reg.transcription_handlers;
}

unfoldable pub register_video : Registry → Text → Handler → Registry
register_video reg protocol h = record reg { video_handlers = insert protocol h reg.video_handlers }

-- The Register functions of the translate adapters, keyed by the adapter's name.
unfoldable pub register_image_adapter : Registry → Text → Handler → Registry
register_image_adapter reg name h = record reg { image_adapters = insert name h reg.image_adapters }

unfoldable pub register_speech_adapter : Registry → Text → Handler → Registry
register_speech_adapter reg name h = record reg {
  speech_adapters = insert name h reg.speech_adapters;
}

unfoldable pub register_embed_adapter : Registry → Text → Handler → Registry
register_embed_adapter reg name h = record reg { embed_adapters = insert name h reg.embed_adapters }

unfoldable pub register_video_adapter : Registry → Text → Handler → Registry
register_video_adapter reg name h = record reg { video_adapters = insert name h reg.video_adapters }

unfoldable pub register_chat_adapter : Registry → Text → Handler → Registry
register_chat_adapter reg name h = record reg { chat_adapters = insert name h reg.chat_adapters }

unfoldable pub lookup_handler : Map Handler → Map Handler → Target → Option Handler
lookup_handler adapter_map protocol_map t =
    if not (is_empty t.adapter)
    then lookup t.adapter adapter_map
    else lookup t.protocol protocol_map

unfoldable pub lookup_chat : Registry → Target → Option Handler
lookup_chat reg t = lookup_handler reg.chat_adapters reg.chat_handlers t

unfoldable pub lookup_embed : Registry → Target → Option Handler
lookup_embed reg t = lookup_handler reg.embed_adapters reg.embed_handlers t

unfoldable pub lookup_image : Registry → Target → Option Handler
lookup_image reg t = lookup_handler reg.image_adapters reg.image_handlers t

unfoldable pub lookup_speech : Registry → Target → Option Handler
lookup_speech reg t = lookup_handler reg.speech_adapters reg.speech_handlers t

-- The adapter map is nil.
unfoldable pub lookup_transcription : Registry → Target → Option Handler
lookup_transcription reg t = lookup_handler [] reg.transcription_handlers t

unfoldable pub lookup_video : Registry → Target → Option Handler
lookup_video reg t = lookup_handler reg.video_adapters reg.video_handlers t

-- The choice of `forward` (wire/wire.go) by the wire.
unfoldable pub handler_for : Registry → Text → Target → Option Handler
unfolding lookup_chat lookup_embed lookup_image lookup_speech lookup_transcription lookup_video
handler_for reg wire t =
    if text_eq wire wire_openai_embed
    then lookup_embed reg t
    else if text_eq wire wire_openai_images_gen
    then lookup_image reg t
    else if text_eq wire wire_openai_audio_speech
    then lookup_speech reg t
    else if text_eq wire wire_openai_audio_transcriptions
    then lookup_transcription reg t
    else if text_eq wire wire_openai_videos
    then lookup_video reg t
    else lookup_chat reg t
