-- ===== src/Tests/Requests.antt =====
-- A request through the engine (wire/): the first upstream is overloaded, the second answers.
use daigate.Prelude.{
  Text, List, ok, ◌↔◌, length, ◌≤◌, ◌&&◌, [], ◌∷◌, codes, text_eq, ◌++◌, has_suffix, has_prefix,
  trim_right, true, false, none, some, Result, ◌≡◌, ◌≢◌, ◌⊎◌, refl, arith, if◌then◌else◌,
}
use daigate.Catalog.Document.{Catalog}
use daigate.Catalog.Wires.{wire_openai_chat, protocol_matches_wire}
use daigate.Keyring.Keys.{Principal, KeyError}
use daigate.Keyring.SqlStore.{sql_verify}
use daigate.Credential.Material.{Material, api_key}
use daigate.Wire.Dispatch.{answered, broken, Handler, Registry, new_registry, handler_for}
use daigate.Wire.Engine.{Codec, Surroundings, Request, Engine, attempt, surroundings, method_post}
use daigate.Wire.Engine.Failover.{IsTried, attempt-IsTried}
use daigate.Wire.Ingress.{with_auth}
use daigate.Wire.Ingress.Gate.{IsAdmitted, IsInert, with_auth-gate}
use daigate.Wire.Ingress.Answered.{with_auth-replies}
use daigate.Http.{max_request_body}
use daigate.Catalog.Wires.{wire_openai_videos}
use daigate.Wire.Engine.{method_get}
use daigate.Wire.Handler.{Readers, Incoming, request_of}
use daigate.Wire.Handler.Limits.{with_auth-IsLimited}
use daigate.Wire.Passthrough.{Net}
use daigate.Wire.Compose.{is_wanted, from_config}
use daigate.Wire.Compose.Stock.{from_config-handles}
use daigate.Upstream.Url.{join_url}
use daigate.Upstream.Url.Layouts.{join_url-v1}
use daigate.Tests.Routes.{catalog, plan, east, west, document-IsDistinct}
use daigate.Tests.Keys.{toy, store}

abbrev pub codec : Codec
codec = record { decode_object = λ raw. none; encode_object = λ m. []; encode_string = λ s. s }

-- East answers 429, West 200.
abbrev pub chat : Handler
chat call =
    if text_eq call.target.provider_ref (codes "east")
    then answered (record { status = 429; headers = []; body = [] })
    else answered (record { status = 200; headers = []; body = codes "hello" })

abbrev pub registry : Registry
registry = record new_registry { chat_handlers = (codes "openai-chat-completions", chat) ∷ [] }

abbrev pub material : Text → Material
material profile = record {
  profile = profile;
  kind = api_key;
  api_key = codes "up";
  access_token = [];
  refresh_token = [];
  expires_at = none;
  email = [];
  extras = [];
}

abbrev pub engine : Engine
engine = record { codec = codec; registry = registry; get = λ i profile. some (material profile) }

abbrev pub request : Request
request = record {
  method = method_post;
  path = codes "/v1/chat/completions";
  headers = (codes "Authorization", codes "Bearer sk-dg-1.abc" ∷ []) ∷ [];
  read_model = some (codes "mini");
  raw = some (codes "{}");
}

abbrev around : Surroundings
around = surroundings engine request wire_openai_chat plan

abbrev alone : Surroundings
alone = record around { failover = false }

abbrev verify : Text → Result KeyError Principal
verify token = sql_verify toy store 0 token

attempt-IsTried_example : IsTried around 0 (east ∷ west ∷ []) (attempt around 0 (east ∷ west ∷ []))
attempt-IsTried_example = attempt-IsTried around 0 east (west ∷ [])

with_auth-gate_example :
    IsAdmitted verify catalog request wire_openai_chat
    ⊎ IsInert catalog (with_auth verify engine catalog request wire_openai_chat)
with_auth-gate_example = with_auth-gate verify engine catalog request wire_openai_chat

-- The catalog after three turns of a pool.
abbrev turned : Catalog
turned = record catalog { rr = (codes "chat|openai", 3) ∷ [] }

with_auth-replies_example : (with_auth verify engine turned request wire_openai_chat).0.reply ≢ none
with_auth-replies_example =
    with_auth-replies verify engine turned request wire_openai_chat document-IsDistinct
      (omega arith, tt)

abbrev net : Net
net = record { parses = λ u. true; send = λ req. broken; trace = λ h. h; lower = λ c. c }

east_fits :
    (protocol_matches_wire east.protocol wire_openai_chat ≡ true)
    × (text_eq east.protocol (codes "openai-compat-chat") ≡ false)
unfolding protocol_matches_wire text_eq codes
east_fits = (refl, refl)

-- The name as an operator may write it.
abbrev enable : List Text
enable = codes " passthrough" ∷ []

from_config-handles_example :
    ((is_wanted net.lower enable (codes "passthrough") ≡ true)
      ↔ ((reg : Registry) × (from_config net enable [] ≡ ok reg)))
    × ((reg : Registry)
        → from_config net enable [] ≡ ok reg
        → handler_for reg wire_openai_chat east ≢ none)
from_config-handles_example =
    from_config-handles net enable east wire_openai_chat east_fits.0 east_fits.1 refl

plain_base :
    (trim_right (codes "https://up") b'/' ≡ codes "https://up")
    × (has_suffix (codes "https://up") (codes "/v1") ≡ false)
unfolding trim_right has_suffix has_prefix codes
plain_base = (refl, refl)

join_url-v1_example :
    join_url (codes "https://up" ++ codes "/v1") (codes "/v1/" ++ codes "embeddings")
    ≡ join_url (codes "https://up") (codes "/v1/" ++ codes "embeddings")
join_url-v1_example =
    join_url-v1 (codes "https://up") (codes "embeddings") plain_base.0 plain_base.1

abbrev readers : Readers
readers = record {
  model_field = λ raw. codes "mini";
  media_params = λ t. none;
  parts_of = λ raw boundary. ([], false);
}

abbrev incoming : Incoming
incoming = record {
  method = method_post;
  path = codes "/v1/chat/completions";
  headers = request.headers;
  query_model = [];
  body = record { content = codes "{}"; fails = true };
}

no_video : (text_eq wire_openai_chat wire_openai_videos && text_eq method_post method_get) ≡ false
unfolding text_eq codes
no_video = refl

with_auth-IsLimited_example :
    ((length incoming.body.content ≤ max_request_body) × (incoming.body.fails ≡ false))
    ⊎ IsInert catalog (
        with_auth verify engine catalog
          (request_of readers incoming wire_openai_chat)
          wire_openai_chat)
with_auth-IsLimited_example =
    with_auth-IsLimited readers verify engine catalog incoming wire_openai_chat no_video
