-- ===== src/Tests/Logins.antt =====
-- Logins at an identity provider (credential/oauth/), their refresh, and the relaying of answers.
use daigate.Prelude.{
  Text, List, [], ◌∷◌, ◌++◌, codes, text_eq, lookup, keys, sort_strings, if◌then◌else◌, ◌||◌, pos,
  ◌==◌, has_suffix, has_prefix, trim_space, true, false, none, some, ok, err, ◌≡◌, ◌≢◌, ◌⊎◌, refl,
  inr, arith, Memᴰ, Permᴰ,
}
use daigate.Http.{Header, header_get}
use daigate.Config.{OAuthProfile}
use daigate.Credential.Material.{Material, oauth}
use daigate.Credential.Store.{Memory, new_memory}
use daigate.Credential.Store.History.{
  Operation, put_oauth_op, run_ops, new_memory-IsConsistent, run_ops-IsConsistent,
}
use daigate.Credential.Payload.{Json, empty_material, oauth_material_payload}
use daigate.Credential.Oauth.{
  Query, Post, TokenResponse, DeviceResponse, Decoders, Urls, OauthError, device_authorize_url,
  trim_suffix,
}
use daigate.Credential.Oauth.Device.{
  Turns, login_device, read_device, scope_form, login_device-ends,
}
use daigate.Credential.Oauth.Browser.{
  Secrets, answered, callback, IsGranted, login_browser, finish_login, login_browser-IsGranted,
}
use daigate.Credential.Oauth.Refresh.{refresh_profile, memory_store}
use daigate.Credential.Oauth.Refresh.Laws.{IsCommitted, refresh_profile-IsCommitted}
use daigate.Credential.Oauth.Vendor.{Modules, Module, oauth_providers}
use daigate.Credential.Oauth.Vendor.Sorted.{oauth_providers-eq-sort_strings}
use daigate.Upstream.Relay.{
  Client, copy_sse, hop_by_hop_headers, split_at, remove_hop_by_hop_headers,
}
use daigate.Upstream.Relay.Lines.{IsCopied, copy_sse-IsCopied}
use daigate.Upstream.Relay.Hops.{is_named, is_listed, lookup-remove_hop_by_hop_headers}
use daigate.Tests.Credentials.{cipher, json, key, nonce}

abbrev profile : OAuthProfile
profile = record {
  authorize_url = codes "https://id/authorize";
  token_url = codes "https://id/token";
  device_authorize_url = [];
  device_token_url = [];
  client_id = codes "cli";
  scopes = [];
  pkce = true;
}

abbrev tokens : TokenResponse
tokens = record {
  access_token = codes "at";
  refresh_token = [];
  expires_in = pos 3600;
  token_type = codes "Bearer";
  scope = [];
}

abbrev device : DeviceResponse
device = record {
  device_code = codes "dc";
  user_code = codes "UC";
  verification_uri = codes "https://id/device";
  verification_uri_complete = [];
  expires_in = pos 20;
  interval = pos 0;
}

abbrev decoders : Decoders
decoders = record { decode_token = λ body. some tokens; decode_device = λ body. some device }

abbrev post : Post
post url form = some (record { status = 200; body = codes "{}" })

-- The provider keeps the client waiting.
abbrev turns : Turns
turns = record {
  begun = 3;
  gone = λ i. false;
  post = λ i url form. some (record { status = 400; body = codes "authorization_pending" });
  late = λ i. i;
  rest = λ i. 2;
}

device_url : device_authorize_url profile ≡ ok (codes "https://id/device/code")
unfolding device_authorize_url trim_suffix has_suffix has_prefix text_eq trim_space codes
device_url = refl

device_answer :
    read_device decoders (post (codes "https://id/device/code") (scope_form profile)) ≡ ok device
unfolding read_device
device_answer = refl

login_device-ends_example : login_device decoders post 7 turns 5 (codes "p") profile ≢ none
login_device-ends_example =
    login_device-ends decoders post 7 turns 4 20 5 (codes "p") (codes "https://id/device/code")
      profile device device_url device_answer refl (inr (refl, refl)) (omega arith) (omega arith)
      (omega arith)

abbrev secrets : Secrets
secrets = record { verifier = codes "v"; challenge = codes "ch"; state = codes "st" }

abbrev urls : Urls
urls = record { query_of = λ u. some []; with_query = λ u q. u }

abbrev granted : Query
granted = (codes "state", codes "st" ∷ []) ∷ (codes "code", codes "c1" ∷ []) ∷ []

granted_code : callback (codes "st") granted ≡ ok (codes "c1")
unfolding callback lookup text_eq codes
granted_code = refl

login_browser-IsGranted_example :
    ((e : OauthError) × ((other : Post)
        → login_browser decoders urls other 7
            (codes "p")
            profile
            (codes "127.0.0.1:1")
            secrets
            (ok (codes "c1"))
          ≡ err e))
    ⊎ ((q : Query) × (code : Text) × Memᴰ q (granted ∷ [])
        × IsGranted secrets.state q code
        × (login_browser decoders urls post 7
              (codes "p")
              profile
              (codes "127.0.0.1:1")
              secrets
              (ok (codes "c1"))
            ≡ finish_login decoders post 7
                (codes "p")
                profile
                (codes "http://" ++ (codes "127.0.0.1:1" ++ codes "/oauth/callback"))
                code
                secrets))
login_browser-IsGranted_example =
    login_browser-IsGranted decoders urls post 7 (codes "p") profile (codes "127.0.0.1:1") secrets
      (granted ∷ []) (ok (codes "c1")) (answered (Memᴰ.head refl) granted_code)

-- The codec of a store whose logins have a refresh token.
abbrev login_json : Json
login_json = record json {
  unmarshal_oauth = λ t.
      some (record (oauth_material_payload (empty_material [] oauth)) { refresh = codes "rt" });
}

abbrev logins : List Operation
logins = put_oauth_op (codes "p") (empty_material (codes "p") oauth) nonce 5 ∷ []

abbrev login_store : Memory
login_store = run_ops cipher login_json logins (new_memory key 0)

refresh_profile-IsCommitted_example : IsCommitted login_store (
    refresh_profile
      (memory_store cipher login_json (λ i. nonce) (λ i. 9))
      decoders
      post
      9
      (λ i. false)
      (codes "p")
      profile
      login_store)
refresh_profile-IsCommitted_example =
    refresh_profile-IsCommitted cipher login_json (λ i. nonce) (λ i. 9) decoders post 9 (λ i. false)
      (codes "p") profile login_store
      (run_ops-IsConsistent cipher login_json logins (new_memory key 0)
        (new_memory-IsConsistent cipher login_json key 0))

abbrev vendor : Module
vendor = record { login = λ env p flow. none; refresh = λ p cur. ok cur }

abbrev modules : Modules
modules = (codes "west", vendor) ∷ (codes "east", vendor) ∷ []

abbrev modules' : Modules
modules' = (codes "east", vendor) ∷ (codes "west", vendor) ∷ []

oauth_providers-eq-sort_strings_example :
    (oauth_providers modules ≡ sort_strings (keys modules))
    × (oauth_providers modules ≡ oauth_providers modules')
oauth_providers-eq-sort_strings_example =
    oauth_providers-eq-sort_strings modules modules' (Permᴰ.swap refl refl)

abbrev client : Client
client = record { gone = λ i. false; accepts = λ i. i == 0 }

copy_sse-IsCopied_example :
    IsCopied client false
      (codes "data: a\n\ndata: b")
      (copy_sse client false (codes "data: a\n\ndata: b"))
copy_sse-IsCopied_example = copy_sse-IsCopied client false (codes "data: a\n\ndata: b")

abbrev answer_headers : Header
answer_headers =
    (codes "Connection", codes "x-trace, close" ∷ []) ∷ (codes "X-Trace", codes "1" ∷ []) ∷ []

lookup-remove_hop_by_hop_headers_example :
    lookup (codes "X-Trace") (remove_hop_by_hop_headers answer_headers) ≡ (
      if is_named hop_by_hop_headers (codes "X-Trace")
        || is_listed
            (split_at b',' (header_get answer_headers (codes "Connection")))
            (codes "X-Trace")
      then none
      else lookup (codes "X-Trace") answer_headers)
lookup-remove_hop_by_hop_headers_example =
    lookup-remove_hop_by_hop_headers answer_headers (codes "X-Trace")
