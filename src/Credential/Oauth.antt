-- ===== src/Credential/Oauth.antt =====
-- OAuth logins and refreshes without a vendor's module (credential/oauth/generic/oauth.go). An
-- exchange with the identity provider is a function from the URL and the form of a POST to the answer;
-- the decoders of encoding/json and the functions of net/url are arguments, and so are clock readings
-- and random bytes. What is shown to the operator is left out.
pub mod Device
pub mod Browser
pub mod Refresh
pub mod Vendor
use daigate.Prelude.{
  Text, Map, ℕ, ◌+◌, ◌-◌, List, [], ◌∷◌, ◌++◌, codes, is_empty, text_eq, has_suffix, take, length,
  trim_space, contains, ltb, insert, lookup, ℤ, pos, negsuc, positive, seconds, if◌then◌else◌, ◌&&◌,
  ◌||◌, not, Bool, false, Option, none, some, Result, ok, err,
}
use daigate.Http.{first_value}
use daigate.Catalog.Document.{is_nil}
use daigate.Config.{OAuthProfile, Getenv}
use daigate.Credential.Material.{Material, oauth}
use daigate.Credential.Payload.{empty_material}
use daigate.Credential.Store.{StoreError}

abbrev pub Form : Type 0
Form = Map Text

abbrev pub Query : Type 0
Query = Map (List Text)

-- Values.Get
abbrev pub query_get : Query → Text → Text
query_get q name = first_value (lookup name q)

pub record HttpAnswer : Type 0 where
  pub status : ℕ
  pub body : Text

-- oauthHTTP.Do on a POST of a form; `none` is an error, also one of the request's URL.
abbrev pub Post : Type 0
Post = Text → Form → Option HttpAnswer

pub record TokenResponse : Type 0 where
  pub access_token : Text
  pub refresh_token : Text
  pub expires_in : ℤ
  pub token_type : Text
  pub scope : Text

pub record DeviceResponse : Type 0 where
  pub device_code : Text
  pub user_code : Text
  pub verification_uri : Text
  pub verification_uri_complete : Text
  pub expires_in : ℤ
  pub interval : ℤ

pub record Decoders : Type 0 where
  pub decode_token : Text → Option TokenResponse
  pub decode_device : Text → Option DeviceResponse

-- url.Parse with Query, and a URL with the query set and printed.
pub record Urls : Type 0 where
  pub query_of : Text → Option Query
  pub with_query : Text → Query → Text

pub data OauthError : Type 0 where
  unknown_flow endpoints_required device_url_required : Text → OauthError
  transport malformed_device malformed_token malformed_url : OauthError
  device_refused token_refused exchange_refused refresh_refused : ℕ → Text → OauthError
  cancelled timed_out state_mismatch missing_code : OauthError
  provider_error : Text → OauthError
  manual_input_required input_failed code_not_found : OauthError
  not_oauth no_refresh_token empty_access_token : Text → OauthError
  store_failed : StoreError → OauthError
  store_write_failed : Option StoreError → OauthError

abbrev pub flow_auto : Text
flow_auto = codes "auto"

abbrev pub flow_browser : Text
flow_browser = codes "browser"

abbrev pub flow_device : Text
flow_device = codes "device"

abbrev pub flow_manual : Text
flow_manual = codes "manual"

-- isInteractive; `terminal` is term.IsTerminal of the standard input.
unfoldable pub is_interactive : Getenv → Bool → Bool
is_interactive getenv terminal =
    if text_eq (getenv (codes "DAIGATE_FORCE_DEVICE")) (codes "1")
    then false
    else terminal
      && (not (is_empty (getenv (codes "DISPLAY")))
          || not (is_empty (getenv (codes "WAYLAND_DISPLAY")))
          || (is_empty (getenv (codes "SSH_CONNECTION")) && is_empty (getenv (codes "SSH_TTY"))))

unfoldable pub resolve_flow : Getenv → Bool → Text → Result OauthError Text
unfolding is_interactive
resolve_flow getenv terminal flow =
    if text_eq flow flow_auto
    then (if is_interactive getenv terminal then ok flow_browser else ok flow_device)
    else if text_eq flow flow_browser || text_eq flow flow_device || text_eq flow flow_manual
    then ok flow
    else err (unknown_flow flow)

-- strings.TrimSuffix
unfoldable pub trim_suffix : Text → Text → Text
trim_suffix s p = if has_suffix s p then take (length s - length p) s else s

unfoldable pub device_authorize_url : OAuthProfile → Result OauthError Text
unfolding trim_suffix
device_authorize_url o =
    let u = trim_space o.device_authorize_url in
    let base = trim_suffix o.token_url (codes "/token") in
    if not (is_empty u)
    then ok u
    else if not (text_eq base o.token_url)
    then ok (base ++ codes "/device/code")
    else err (device_url_required o.token_url)

-- strings.Join with a space
unfoldable pub join_space : List Text → Text
join_space [] = []
join_space (s ∷ []) = s
join_space (s ∷ t ∷ scopes) = s ++ (codes " " ++ join_space (t ∷ scopes))

-- form.Set where the value is not empty.
abbrev pub set_given : Text → Text → Form → Form
set_given name value form = if not (is_empty value) then insert name value form else form

-- buildAuthorizeURL
unfoldable pub build_authorize_url :
    Urls → OAuthProfile → Text → Text → Text → Result OauthError Text
unfolding join_space
build_authorize_url urls o redirect_uri state challenge = elim (urls.query_of o.authorize_url) [
  | none ↦ err malformed_url
  | some q ↦
      (let set : Text → Text → Query → Query = (λ name value m. insert name (value ∷ []) m) in
        let kind = set (codes "response_type") (codes "code") q in
        let client =
          if not (is_empty o.client_id) then set (codes "client_id") o.client_id kind else kind in
        let known = set (codes "state") state (set (codes "redirect_uri") redirect_uri client) in
        let scoped =
          if not (is_nil o.scopes)
          then set (codes "scope") (join_space o.scopes) known
          else known in
        let proved =
          if o.pkce || not (is_empty challenge)
          then set (codes "code_challenge_method") (codes "S256")
              (set (codes "code_challenge") challenge scoped)
          else scoped in
        ok (urls.with_query o.authorize_url proved))
]

-- time.Time.Add; a time before 1970 is 1970.
abbrev pub add_time : ℕ → ℤ → ℕ
add_time t (pos d) = t + d
add_time t (negsuc d) = t - (d + 1)

-- tokenToMaterial
unfoldable pub token_to_material : ℕ → Text → TokenResponse → Material
token_to_material now profile tok = record (empty_material profile oauth) {
  access_token = tok.access_token;
  refresh_token = tok.refresh_token;
  expires_at = elim (positive tok.expires_in) [
    | none ↦ none
    | some n ↦ some (add_time now (seconds (pos n)))
  ];
}

-- What exchangeCode and Refresh make of the answer to their form.
unfoldable pub read_token :
    Decoders → (ℕ → Text → OauthError) → Option HttpAnswer → Result OauthError TokenResponse
read_token decoders refused none = err transport
read_token decoders refused (some resp) =
    if not (ltb resp.status 400)
    then err (refused resp.status (trim_space resp.body))
    else elim (decoders.decode_token resp.body) [ none ↦ err malformed_token | some tok ↦ ok tok ]

-- exchangeCode
unfoldable pub exchange_code :
    Decoders → Post → OAuthProfile → Text → Text → Text → Result OauthError TokenResponse
unfolding read_token
exchange_code decoders post o code redirect_uri verifier =
    let form : Form =
      (codes "grant_type", codes "authorization_code")
      ∷ (codes "code", code)
      ∷ (codes "redirect_uri", redirect_uri)
      ∷ [] in
    read_token decoders exchange_refused (
      post o.token_url (
        set_given (codes "code_verifier") verifier
          (set_given (codes "client_id") o.client_id form)))

abbrev pub refresh_form : OAuthProfile → Text → Form
refresh_form o old =
    set_given (codes "client_id") o.client_id
      ((codes "grant_type", codes "refresh_token") ∷ (codes "refresh_token", old) ∷ [])

-- Refresh
unfoldable pub refresh_token_for :
    Decoders → Post → ℕ → OAuthProfile → Text → Result OauthError Material
unfolding read_token token_to_material
refresh_token_for decoders post now o old =
    elim (read_token decoders refresh_refused (post o.token_url (refresh_form o old))) [
      | err e ↦ err e
      | ok tok ↦
          (let mat = token_to_material now [] tok in
            ok (
              if not (is_empty old) && is_empty tok.refresh_token
              then record mat { refresh_token = old }
              else mat))
    ]

-- extractCode
unfoldable pub extract_code : Urls → Text → Text
extract_code urls given =
    let input = trim_space given in
    if is_empty input
    then []
    else if not (contains input (codes "://")) && not (contains input (codes "?"))
    then input
    else elim (urls.query_of input) [
      | none ↦ input
      | some q ↦ (let c = query_get q (codes "code") in if not (is_empty c) then c else input)
    ]
