-- ===== src/Wire/Passthrough/Served.antt =====
-- The handlers that passthrough registers against the protocols that routing accepts.
use daigate.Prelude.{
  Text, Map, [], codes, text_eq, text_eq_iff, lookup, insert, lookup-insert, true, false, none, ◌≡◌,
  ◌≢◌, inl, inr, refl, sym, arith, Bool-cases, subst,
}
use daigate.Catalog.Wires.{
  protocol_matches_wire, wire_openai_chat, wire_anthropic_msg, wire_openai_embed,
  wire_openai_responses, wire_openai_images_gen, wire_openai_audio_speech,
  wire_openai_audio_transcriptions, wire_openai_videos,
}
use daigate.Catalog.Routing.{Target}
use daigate.Wire.Dispatch.{
  Handler, Registry, handler_for, lookup_handler, lookup_chat, lookup_embed, lookup_image,
  lookup_speech, lookup_transcription, lookup_video, register_chat, register_embed, register_image,
  register_speech, register_transcription, register_video,
}
use daigate.Wire.Passthrough.{Net, register}

-- The eight pairs of a protocol and its wire.
data IsServed : Text → Text → Type 0 where
  chat : IsServed (codes "openai-chat-completions") wire_openai_chat
  messages : IsServed (codes "anthropic-messages") wire_anthropic_msg
  embeddings : IsServed (codes "openai-embeddings") wire_openai_embed
  responses : IsServed (codes "openai-responses") wire_openai_responses
  images : IsServed (codes "openai-images") wire_openai_images_gen
  speech : IsServed (codes "openai-tts") wire_openai_audio_speech
  transcriptions : IsServed (codes "openai-transcriptions") wire_openai_audio_transcriptions
  videos : IsServed (codes "openai-videos") wire_openai_videos

same_text :
    {protocol wire p w : Text}
    → text_eq wire w ≡ true
    → text_eq protocol p ≡ true
    → IsServed p w
    → IsServed protocol wire
same_text {protocol} {wire} {p} {w} e f h =
    subst (λ x. IsServed x wire) (sym ((text_eq_iff protocol p).0 f))
      (subst (λ y. IsServed p y) (sym ((text_eq_iff wire w).0 e)) h)

protocol_matches_wire-IsServed :
    (protocol wire : Text)
    → protocol_matches_wire protocol wire ≡ true
    → text_eq protocol (codes "openai-compat-chat") ≡ false
    → IsServed protocol wire
unfolding protocol_matches_wire
protocol_matches_wire-IsServed protocol wire h compat =
    elim (Bool-cases (text_eq wire wire_openai_chat)) [
      | inl e₁ ↦ same_text e₁ (ground (arith, e₁, compat, h)) chat
      | inr n₁ ↦ elim (Bool-cases (text_eq wire wire_anthropic_msg)) [
        | inl e₂ ↦ same_text e₂ (ground (arith, n₁, e₂, h)) messages
        | inr n₂ ↦ elim (Bool-cases (text_eq wire wire_openai_embed)) [
          | inl e₃ ↦ same_text e₃ (ground (arith, n₁, n₂, e₃, h)) embeddings
          | inr n₃ ↦ elim (Bool-cases (text_eq wire wire_openai_responses)) [
            | inl e₄ ↦ same_text e₄ (ground (arith, n₁, n₂, n₃, e₄, h)) responses
            | inr n₄ ↦ elim (Bool-cases (text_eq wire wire_openai_images_gen)) [
              | inl e₅ ↦ same_text e₅ (ground (arith, n₁, n₂, n₃, n₄, e₅, h)) images
              | inr n₅ ↦ elim (Bool-cases (text_eq wire wire_openai_audio_speech)) [
                | inl e₆ ↦ same_text e₆ (ground (arith, n₁, n₂, n₃, n₄, n₅, e₆, h)) speech
                | inr n₆ ↦ elim (Bool-cases (text_eq wire wire_openai_audio_transcriptions)) [
                  | inl e₇ ↦
                      same_text e₇ (ground (arith, n₁, n₂, n₃, n₄, n₅, n₆, e₇, h)) transcriptions
                  | inr n₇ ↦ elim (Bool-cases (text_eq wire wire_openai_videos)) [
                    | inl e₈ ↦
                        same_text e₈ (ground (arith, n₁, n₂, n₃, n₄, n₅, n₆, n₇, e₈, h)) videos
                    | inr n₈ ↦ absurd (ground (arith, n₁, n₂, n₃, n₄, n₅, n₆, n₇, n₈, h))
                  ]
                ]
              ]
            ]
          ]
        ]
      ]
    ]

module _ {V : Type 0} where
  insert_found : (k j : Text) (v : V) (m : Map V) → j ≡ k → lookup j (insert k v m) ≢ none
  insert_found k j v m e = ground (arith, lookup-insert k j v m, text_eq_iff k j, e)

  insert_kept :
      (k j : Text) (v : V) (m : Map V) → lookup j m ≢ none → lookup j (insert k v m) ≢ none
  insert_kept k j v m h = ground (arith, lookup-insert k j v m, h)

lookup_handler-protocol :
    (adapters protocols : Map Handler) (t : Target)
    → t.adapter ≡ []
    → lookup t.protocol protocols ≢ none
    → lookup_handler adapters protocols t ≢ none
unfolding lookup_handler
lookup_handler-protocol adapters protocols t f h = ground (arith, f, h)

IsServed-handled :
    (net : Net) (reg : Registry) (t : Target) {protocol wire : Text}
    → IsServed protocol wire
    → t.protocol ≡ protocol
    → t.adapter ≡ []
    → handler_for (register net reg) wire t ≢ none
unfolding handler_for register register_chat register_embed register_image register_speech
    register_transcription register_video lookup_chat lookup_embed lookup_image lookup_speech
    lookup_transcription lookup_video text_eq codes
IsServed-handled net reg t chat e f =
    lookup_handler-protocol _ _ t f (
      insert_kept _ t.protocol _ _ (insert_kept _ t.protocol _ _ (insert_found _ t.protocol _ _ e)))
IsServed-handled net reg t messages e f =
    lookup_handler-protocol _ _ t f (insert_kept _ t.protocol _ _ (insert_found _ t.protocol _ _ e))
IsServed-handled net reg t embeddings e f =
    lookup_handler-protocol _ _ t f (insert_found _ t.protocol _ _ e)
IsServed-handled net reg t responses e f =
    lookup_handler-protocol _ _ t f (insert_found _ t.protocol _ _ e)
IsServed-handled net reg t images e f =
    lookup_handler-protocol _ _ t f (insert_found _ t.protocol _ _ e)
IsServed-handled net reg t speech e f =
    lookup_handler-protocol _ _ t f (insert_found _ t.protocol _ _ e)
IsServed-handled net reg t transcriptions e f =
    lookup_handler-protocol _ _ t f (insert_found _ t.protocol _ _ e)
IsServed-handled net reg t videos e f =
    lookup_handler-protocol _ _ t f (insert_found _ t.protocol _ _ e)

-- After passthrough has registered its handlers, on whatever registry, the engine finds a handler
-- for each target without an adapter whose protocol fits the wire, unless the protocol is
-- openai-compat-chat, which routing accepts and passthrough does not serve.
pub register-handles :
    (net : Net) (reg : Registry) (t : Target) (wire : Text)
    → protocol_matches_wire t.protocol wire ≡ true
    → text_eq t.protocol (codes "openai-compat-chat") ≡ false
    → t.adapter ≡ []
    → handler_for (register net reg) wire t ≢ none
register-handles net reg t wire h compat f =
    IsServed-handled net reg t (protocol_matches_wire-IsServed t.protocol wire h compat) refl f
