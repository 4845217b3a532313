-- ===== src/Catalog/Wires.antt =====
-- The wires: their ids, the ingress paths that lead to them, the protocols that serve them
-- (catalog/catalog.go), and the modality hint of a request (catalog/modality.go).
use daigate.Prelude.{
  Text, [], codes, text_eq, has_prefix, trim_space, if◌then◌else◌, ◌&&◌, ◌||◌, not, Bool, false,
  Option, none, some,
}

abbrev pub wire_openai_chat : Text
wire_openai_chat = codes "openai-chat-completions"

abbrev pub wire_anthropic_msg : Text
wire_anthropic_msg = codes "anthropic-messages"

abbrev pub wire_openai_embed : Text
wire_openai_embed = codes "openai-embeddings"

abbrev pub wire_openai_responses : Text
wire_openai_responses = codes "openai-responses"

abbrev pub wire_openai_images_gen : Text
wire_openai_images_gen = codes "openai-images-generations"

abbrev pub wire_openai_audio_speech : Text
wire_openai_audio_speech = codes "openai-audio-speech"

abbrev pub wire_openai_audio_transcriptions : Text
wire_openai_audio_transcriptions = codes "openai-audio-transcriptions"

abbrev pub wire_openai_videos : Text
wire_openai_videos = codes "openai-videos"

abbrev pub strategy_failover : Text
strategy_failover = codes "failover"

abbrev pub strategy_round_robin : Text
strategy_round_robin = codes "round_robin"

-- `none` is the result `("", false)`.
unfoldable pub wire_for_path : Text → Option Text
wire_for_path path =
    let trimmed = trim_space path in
    if text_eq trimmed (codes "/v1/chat/completions")
    then some wire_openai_chat
    else if text_eq trimmed (codes "/v1/messages")
    then some wire_anthropic_msg
    else if text_eq trimmed (codes "/v1/embeddings")
    then some wire_openai_embed
    else if text_eq trimmed (codes "/v1/responses")
    then some wire_openai_responses
    else if text_eq trimmed (codes "/v1/images/generations")
        || text_eq trimmed (codes "/v1/images/edits")
    then some wire_openai_images_gen
    else if text_eq trimmed (codes "/v1/audio/speech")
    then some wire_openai_audio_speech
    else if text_eq trimmed (codes "/v1/audio/transcriptions")
    then some wire_openai_audio_transcriptions
    else if text_eq trimmed (codes "/v1/videos/generations")
    then some wire_openai_videos
    else if has_prefix path (codes "/v1/videos/")
        && not (text_eq path (codes "/v1/videos/generations"))
    then some wire_openai_videos
    else none

unfoldable pub protocol_matches_wire : Text → Text → Bool
protocol_matches_wire protocol wire =
    if text_eq wire wire_openai_chat
    then text_eq protocol (codes "openai-chat-completions")
      || text_eq protocol (codes "openai-compat-chat")
    else if text_eq wire wire_anthropic_msg
    then text_eq protocol (codes "anthropic-messages")
    else if text_eq wire wire_openai_embed
    then text_eq protocol (codes "openai-embeddings")
    else if text_eq wire wire_openai_responses
    then text_eq protocol (codes "openai-responses")
    else if text_eq wire wire_openai_images_gen
    then text_eq protocol (codes "openai-images")
    else if text_eq wire wire_openai_audio_speech
    then text_eq protocol (codes "openai-tts")
    else if text_eq wire wire_openai_audio_transcriptions
    then text_eq protocol (codes "openai-transcriptions")
    else if text_eq wire wire_openai_videos
    then text_eq protocol (codes "openai-videos")
    else false

-- ModalityHintFromRequest; the argument is the request's X-Catalog-Modality header ("" if absent).
unfoldable pub modality_hint : Text → Text → Text
modality_hint header wire =
    if text_eq wire wire_openai_embed
    then codes "embed"
    else if text_eq wire wire_openai_images_gen
        || text_eq wire wire_openai_audio_speech
        || text_eq wire wire_openai_audio_transcriptions
        || text_eq wire wire_openai_videos
    then []
    else trim_space header
