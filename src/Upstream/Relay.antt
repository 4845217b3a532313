-- ===== src/Upstream/Relay.antt =====
-- The relaying of an upstream's response (upstream/relay.go). A body that is streamed is its text and
-- whether reading it ends in an error; the client's end of the context and its failing writes are
-- functions of the position in the loop. io.Copy is an argument.
pub mod Hops
pub mod Lines
use daigate.Prelude.{
  Text, Map, ℕ, ◌+◌, List, [], ◌∷◌, ◌++◌, codes, is_empty, text_eq, contains, drop_while, ◌==◌,
  if◌then◌else◌, ◌||◌, not, Bool, Option, none, some,
}
use mathlib.Core.List.{reverse}
use daigate.Http.{Header, header_get, header_del}
use daigate.Credential.Material.{Material}
use daigate.Credential.Inject.{copy_headers, apply}
use daigate.Upstream.Url.{join_url}
use daigate.Wire.Dispatch.{Exchange, broken}
use daigate.Wire.Engine.{method_post}
use daigate.Wire.Passthrough.{Net, http_do}

abbrev pub hop_by_hop_headers : List Text
hop_by_hop_headers =
    codes "Connection"
    ∷ codes "Keep-Alive"
    ∷ codes "Proxy-Authenticate"
    ∷ codes "Proxy-Authorization"
    ∷ codes "Te"
    ∷ codes "Trailer"
    ∷ codes "Transfer-Encoding"
    ∷ codes "Upgrade"
    ∷ []

-- strings.Split at a character
unfoldable pub split_at : ℕ → Text → List Text
split_at sep [] = [] ∷ []
split_at sep (c ∷ s) = elim (split_at sep s) [
  | [] ↦ (c ∷ []) ∷ []
  | first ∷ rest ↦ if c == sep then [] ∷ first ∷ rest else (c ∷ first) ∷ rest
]

abbrev is_ows : ℕ → Bool
is_ows c = c == 0x20 || c == 0x09 || c == 0x0A || c == 0x0D

-- textproto.TrimString
unfoldable pub trim_string : Text → Text
trim_string s = reverse (drop_while is_ows (reverse (drop_while is_ows s)))

-- The loop over the names in the Connection header.
unfoldable pub del_listed : List Text → Header → Header
del_listed [] h = h
del_listed (f ∷ fields) h =
    let name = trim_string f in
    del_listed fields (if not (is_empty name) then header_del name h else h)

-- The loop over hopByHopHeaders.
unfoldable pub del_all : List Text → Header → Header
del_all [] h = h
del_all (k ∷ names) h = del_all names (header_del k h)

unfoldable pub remove_hop_by_hop_headers : Header → Header
unfolding del_listed del_all
remove_hop_by_hop_headers h =
    let c = header_get h (codes "Connection") in
    del_all hop_by_hop_headers (if not (is_empty c) then del_listed (split_at b',' c) h else h)

-- Client.Relay; `presets` is the registry of oauth presets, and `none` a body that is nil.
unfoldable pub client_relay :
    Net → Map (Header → Header) → Text → Text → Material → Text → Option Text → Header → Exchange
client_relay net presets base_url path mat preset body headers =
    let url = join_url base_url path in
    if not (net.parses url)
    then broken
    else http_do net (record {
      method = method_post;
      url = url;
      headers = apply net.lower presets mat preset (copy_headers [] headers);
      body = body;
    })

pub data CopyError : Type 0 where
  cancelled write_failed read_failed : CopyError

-- What was written, one entry for each write, and the error that the copy ends with.
pub record Sent : Type 0 where
  pub written : List Text
  pub error : Option CopyError

abbrev pub sent_last : Text → Bool → Bool → Sent
sent_last rest accepts fails =
    let error : Option CopyError = if fails then some read_failed else none in
    if is_empty rest
    then record { written = []; error = error }
    else if not accepts
    then record { written = []; error = some write_failed }
    else record { written = rest ∷ []; error = error }

put_front : ℕ → List Text × Text → List Text × Text
put_front c ([], rest) = if c == b'\n' then ((c ∷ []) ∷ [], rest) else ([], c ∷ rest)
put_front c (line ∷ more, rest) =
    if c == b'\n' then ((c ∷ []) ∷ line ∷ more, rest) else ((c ∷ line) ∷ more, rest)

-- The complete lines of a text, with their line feeds, and what follows the last of them.
unfoldable pub split_lines : Text → List Text × Text
unfolding put_front
split_lines [] = ([], [])
split_lines (c ∷ s) = put_front c (split_lines s)

-- What the client does at each turn of the loop.
pub record Client : Type 0 where
  pub gone : ℕ → Bool
  pub accepts : ℕ → Bool

module _ (client : Client) (fails : Bool) where
  -- The loop of copySSE from turn `i` on: ReadString gives the lines one by one, and at last the
  -- rest together with io.EOF or the error of the body.
  unfoldable pub copy_lines : ℕ → List Text → Text → Sent
  copy_lines i [] rest =
      if client.gone i
      then record { written = []; error = some cancelled }
      else sent_last rest (client.accepts i) fails
  copy_lines i (line ∷ lines) rest =
      let next = copy_lines (i + 1) lines rest in
      if client.gone i
      then record { written = []; error = some cancelled }
      else if not (client.accepts i)
      then record { written = []; error = some write_failed }
      else record next { written = line ∷ next.written }

  unfoldable pub copy_sse : Text → Sent
  unfolding copy_lines split_lines
  copy_sse body = let (lines, rest) = split_lines body in copy_lines 0 lines rest

-- A response whose body is streamed; `none` is a body that is nil.
pub record UpstreamResponse : Type 0 where
  pub status : ℕ
  pub headers : Header
  pub body : Option Text
  pub fails : Bool

-- What the client receives.
pub record Received : Type 0 where
  pub status : ℕ
  pub headers : Header
  pub sent : Sent

unfoldable pub copy_response :
    (Client → Bool → Text → Sent) → Client → Header → UpstreamResponse → Received
unfolding remove_hop_by_hop_headers copy_sse
copy_response io_copy client own resp =
    let event_stream =
      contains (header_get resp.headers (codes "Content-Type")) (codes "text/event-stream") in
    let nothing : Sent = record { written = []; error = none } in
    record {
      status = resp.status;
      headers = copy_headers own (remove_hop_by_hop_headers resp.headers);
      sent = elim resp.body [
        | none ↦ nothing
        | some body ↦
            if event_stream then copy_sse client resp.fails body else io_copy client resp.fails body
      ];
    }
