-- ===== src/Credential/Oauth/Browser.antt =====
-- The browser and the manual flow, and the choice between the flows (loginBrowser, loginManual and
-- Login in credential/oauth/generic/oauth.go).
use daigate.Prelude.{
  Text, ℕ, List, [], ◌∷◌, ◌++◌, codes, is_empty, text_eq, text_eq_iff, if◌then◌else◌, ◌||◌, not,
  Bool, true, false, Option, none, some, Result, ok, err, ◌≡◌, ◌≢◌, ◌⊎◌, ◌∙◌, Result-cases, refl,
  arith, Bool-cases, inl, inr, Memᴰ,
}
use daigate.Config.{OAuthProfile, Getenv}
use daigate.Credential.Material.{Material}
use daigate.Credential.Oauth.{
  Query, query_get, Post, Decoders, Urls, OauthError, state_mismatch, provider_error, missing_code,
  cancelled, endpoints_required, manual_input_required, input_failed, code_not_found, flow_device,
  flow_manual, resolve_flow, build_authorize_url, token_to_material, exchange_code, extract_code,
}
use daigate.Credential.Oauth.Device.{Turns, login_device}

-- The handler of /oauth/callback: what it sends to the login that waits.
unfoldable pub callback : Text → Query → Result OauthError Text
callback state q =
    let e = query_get q (codes "error") in
    let code = query_get q (codes "code") in
    if not (text_eq (query_get q (codes "state")) state)
    then err state_mismatch
    else if not (is_empty e)
    then err (provider_error e)
    else if is_empty code
    then err missing_code
    else ok code

-- What the select of loginBrowser may receive after the callbacks of the list: the end of the context,
-- or what the handler has sent for one of them. Which of several it is, is left open.
pub data Awaited (state : Text) (qs : List Query) : Result OauthError Text → Type 0 where
  ended : Awaited state qs (err cancelled)
  answered :
      {q : Query} {r : Result OauthError Text}
      → Memᴰ q qs
      → callback state q ≡ r
      → Awaited state qs r

-- What random bytes give a login: the verifier of pkcePair, its challenge and the state.
pub record Secrets : Type 0 where
  pub verifier : Text
  pub challenge : Text
  pub state : Text

-- The exchange that both flows end with.
unfoldable pub finish_login :
    Decoders → Post → ℕ → Text → OAuthProfile → Text → Text → Secrets → Result OauthError Material
finish_login decoders post now profile o redirect_uri code secrets =
    elim (exchange_code decoders post o code redirect_uri secrets.verifier) [
      | err e ↦ err e
      | ok tok ↦ ok (token_to_material now profile tok)
    ]

-- loginBrowser once it listens at `address`; `received` is what its select receives.
unfoldable pub login_browser :
    Decoders
    → Urls
    → Post
    → ℕ
    → Text
    → OAuthProfile
    → Text
    → Secrets
    → Result OauthError Text
    → Result OauthError Material
unfolding finish_login
login_browser decoders urls post now profile o address secrets received =
    let redirect_uri = codes "http://" ++ (address ++ codes "/oauth/callback") in
    elim (build_authorize_url urls o redirect_uri secrets.state secrets.challenge) [
      | err e ↦ err e
      | ok url ↦ elim received [
        | err e ↦ err e
        | ok code ↦ finish_login decoders post now profile o redirect_uri code secrets
      ]
    ]

-- loginManual; `input` is OnManualInput, given the URL: `none` where there is none, and `some none` its
-- error.
unfoldable pub login_manual :
    Decoders
    → Urls
    → Post
    → ℕ
    → Text
    → OAuthProfile
    → Secrets
    → Option (Text → Option Text)
    → Result OauthError Material
unfolding finish_login
login_manual decoders urls post now profile o secrets input =
    let redirect_uri = codes "http://127.0.0.1/oauth/callback" in
    elim (build_authorize_url urls o redirect_uri secrets.state secrets.challenge) [
      | err e ↦ err e
      | ok url ↦ elim input [
        | none ↦ err manual_input_required
        | some ask ↦ elim (ask url) [
          | none ↦ err input_failed
          | some given ↦
              (let code = extract_code urls given in
                if is_empty code
                then err code_not_found
                else finish_login decoders post now profile o redirect_uri code secrets)
        ]
      ]
    ]

-- What Login takes from the world besides the flow.
pub record Surroundings : Type 0 where
  pub getenv : Getenv
  pub terminal : Bool
  pub decoders : Decoders
  pub urls : Urls
  pub post : Post
  pub now : ℕ
  pub turns : Turns
  pub fuel : ℕ
  pub secrets : Secrets
  pub address : Text
  pub received : Result OauthError Text
  pub input : Option (Text → Option Text)

-- Login; `none` is a device flow out of fuel.
unfoldable pub login :
    Surroundings → Text → OAuthProfile → Text → Option (Result OauthError Material)
unfolding login_browser login_manual
login env profile o flow = elim (resolve_flow env.getenv env.terminal flow) [
  | err e ↦ some (err e)
  | ok chosen ↦
      if is_empty o.authorize_url || is_empty o.token_url
      then some (err (endpoints_required profile))
      else if text_eq chosen flow_device
      then login_device env.decoders env.post env.now env.turns env.fuel profile o
      else if text_eq chosen flow_manual
      then some
          (login_manual env.decoders env.urls env.post env.now profile o env.secrets env.input)
      else some (
          login_browser env.decoders env.urls env.post env.now profile o env.address env.secrets
            env.received)
]

-- A callback that is answered with a code.
pub record IsGranted (state : Text) (q : Query) (code : Text) : Type 0 where
  pub same_state : query_get q (codes "state") ≡ state
  pub no_error : query_get q (codes "error") ≡ []
  pub given : query_get q (codes "code") ≡ code
  pub not_empty : code ≢ []

empty_of : (t : Text) → is_empty t ≡ true → t ≡ []
empty_of [] h = refl
empty_of (c ∷ t) h = cc

nonempty_of : (t : Text) → is_empty t ≡ false → t ≢ []
nonempty_of [] h = cc
nonempty_of (c ∷ t) h = cc

callback-IsGranted :
    (state : Text) (q : Query) {code : Text} → callback state q ≡ ok code → IsGranted state q code
unfolding callback
callback-IsGranted state q {code} h =
    let given = query_get q (codes "code") in
    elim (Bool-cases (text_eq (query_get q (codes "state")) state)) [
      | inr other ↦ absurd (ground (arith, other, h))
      | inl same ↦ elim (Bool-cases (is_empty (query_get q (codes "error")))) [
        | inr bad ↦ absurd (ground (arith, same, bad, h))
        | inl fine ↦ elim (Bool-cases (is_empty given)) [
          | inl missing ↦ absurd (ground (arith, same, fine, missing, h))
          | inr there ↦
              let code_is : given ≡ code = ground (arith, same, fine, there, h) in
              record {
                same_state = (text_eq_iff (query_get q (codes "state")) state).0 same;
                no_error = empty_of (query_get q (codes "error")) fine;
                given = code_is;
                not_empty = λ e. nonempty_of given there (cc (code_is, e));
              }
        ]
      ]
    ]

Awaited-IsGranted :
    (state : Text) (qs : List Query) (code : Text) {r : Result OauthError Text}
    → Awaited state qs r
    → r ≡ ok code
    → (q : Query) × Memᴰ q qs × IsGranted state q code
Awaited-IsGranted state qs code ended h = cc
Awaited-IsGranted state qs code (answered {q} m e) h =
    (q, m, callback-IsGranted state q {code = code} (e ∙ h))

-- A browser login exchanges a code only if a callback has carried it, with the state that this login
-- has put into its authorization URL and without an error; in every other case it ends without an
-- exchange, in the error it received or that of the URL.
pub login_browser-IsGranted :
    (decoders : Decoders) (urls : Urls) (post : Post) (now : ℕ) (profile : Text) (o : OAuthProfile)
    (address : Text) (secrets : Secrets) (qs : List Query) (received : Result OauthError Text)
    → Awaited secrets.state qs received
    → ((e : OauthError) × ((other : Post)
          → login_browser decoders urls other now profile o address secrets received ≡ err e))
      ⊎ ((q : Query) × (code : Text) × Memᴰ q qs
          × IsGranted secrets.state q code
          × (login_browser decoders urls post now profile o address secrets received
              ≡ finish_login decoders post now profile o
                  (codes "http://" ++ (address ++ codes "/oauth/callback"))
                  code
                  secrets))
unfolding login_browser
login_browser-IsGranted decoders urls post now profile o address secrets qs received w =
    let redirect_uri = codes "http://" ++ (address ++ codes "/oauth/callback") in
    elim (Result-cases (build_authorize_url urls o redirect_uri secrets.state secrets.challenge)) [
      | inr (e, failed) ↦ inl (e, λ other. rw (login_browser, failed) refl)
      | inl (url, built) ↦ elim (Result-cases received) [
        | inr (e, bad) ↦ inl (e, λ other. rw (login_browser, built, bad) refl)
        | inl (code, good) ↦
            let (q, m, granted) = Awaited-IsGranted secrets.state qs code w good in
            inr (q, code, m, granted, rw (login_browser, built, good) refl)
      ]
    ]
