-- ===== src/Credential/Oauth/Device.antt =====
-- The device flow (loginDevice and pollDevice in credential/oauth/generic/oauth.go). The loop runs on
-- fuel, and carries the time: time.After fires once the interval has passed, and what passes beyond it
-- is an argument. Go reads a clock that does not run backwards.
use daigate.Prelude.{
  Text, ℕ, zero, suc, ◌+◌, ◌*◌, ◌≤◌, ◌<◌, [], ◌∷◌, codes, contains, trim_space, ltb, ◌==◌, insert,
  ℤ, pos, negsuc, positive, seconds, seconds-small, if◌then◌else◌, ◌&&◌, not, Bool, Option, none,
  some, Result, ok, err, ◌≡◌, ◌≢◌, ◌⊎◌, refl, arith, Bool-cases, inl, inr, sym, ap, ◌∙◌,
}
use native.Mathlib.Nat.{mul_assoc}
use daigate.Catalog.Document.{is_nil}
use daigate.Config.{OAuthProfile}
use daigate.Credential.Material.{Material}
use daigate.Credential.Oauth.{
  Form, Post, HttpAnswer, TokenResponse, DeviceResponse, Decoders, OauthError, transport,
  device_refused, malformed_device, malformed_token, token_refused, cancelled, timed_out,
  device_authorize_url, join_space, set_given, add_time, token_to_material,
}

pub data Poll : Type 0 where
  pending : Poll
  failed : OauthError → Poll
  got : TokenResponse → Poll

abbrev read_poll : Decoders → Option HttpAnswer → Poll
read_poll decoders none = failed transport
read_poll decoders (some resp) =
    if resp.status == 400 && contains resp.body (codes "authorization_pending")
    then pending
    else if not (ltb resp.status 400)
    then failed (token_refused resp.status (trim_space resp.body))
    else elim (decoders.decode_token resp.body) [
      | none ↦ failed malformed_token
      | some tok ↦ got tok
    ]

unfoldable pub poll_device : Decoders → Post → Text → Text → Text → Poll
poll_device decoders post token_url client_id device_code =
    let form : Form =
      (codes "grant_type", codes "urn:ietf:params:oauth:grant-type:device_code")
      ∷ (codes "device_code", device_code)
      ∷ [] in
    read_poll decoders (post token_url (set_given (codes "client_id") client_id form))

-- What the world does: the time from the setting of the deadline to its first test, and in each turn
-- of the loop whether the context ends while it waits, the provider's answer, the time that passes
-- beyond the interval until the answer is read, and the time from there to the next test.
pub record Turns : Type 0 where
  pub begun : ℕ
  pub gone : ℕ → Bool
  pub post : ℕ → Post
  pub late : ℕ → ℕ
  pub rest : ℕ → ℕ

-- What the loop polls, until when, and how long it waits before each poll.
pub record Polling : Type 0 where
  pub profile : Text
  pub token_url : Text
  pub client_id : Text
  pub device_code : Text
  pub deadline : ℕ
  pub wait : ℕ

module _ (decoders : Decoders) (turns : Turns) (p : Polling) where
  -- The loop from turn `i` on, whose test reads the time `now`; `none` is out of fuel.
  unfoldable pub poll_loop : ℕ → ℕ → ℕ → Option (Result OauthError Material)
  poll_loop zero i now = none
  poll_loop (suc fuel) i now =
      let answered_at = now + p.wait + turns.late i in
      let next = poll_loop fuel (i + 1) (answered_at + turns.rest i) in
      if not (ltb now p.deadline)
      then some (err timed_out)
      else if turns.gone i
      then some (err cancelled)
      else elim (poll_device decoders (turns.post i) p.token_url p.client_id p.device_code) [
        | pending ↦ next
        | failed e ↦ some (err e)
        | got tok ↦ some (ok (token_to_material answered_at p.profile tok))
      ]

-- The interval in seconds.
abbrev pub interval_of : DeviceResponse → ℤ
interval_of dev = elim (positive dev.interval) [ none ↦ pos 5 | some n ↦ pos n ]

-- time.After on a duration; one that is not positive fires at once.
abbrev pub wait_of : ℤ → ℕ
wait_of (pos n) = n
wait_of (negsuc n) = 0

abbrev pub first_given : Text → Text → Text
first_given [] other = other
first_given (c ∷ s) other = c ∷ s

-- The answer to the device authorization request.
unfoldable pub read_device : Decoders → Option HttpAnswer → Result OauthError DeviceResponse
read_device decoders none = err transport
read_device decoders (some resp) =
    if not (ltb resp.status 400)
    then err (device_refused resp.status (trim_space resp.body))
    else elim (decoders.decode_device resp.body) [ none ↦ err malformed_device | some dev ↦ ok dev ]

abbrev pub polling_of : Text → OAuthProfile → DeviceResponse → ℕ → Polling
polling_of profile o dev start = record {
  profile = profile;
  token_url = first_given o.device_token_url o.token_url;
  client_id = o.client_id;
  device_code = dev.device_code;
  deadline = add_time start (seconds dev.expires_in);
  wait = wait_of (seconds (interval_of dev));
}

-- The form of the device authorization request.
unfoldable pub scope_form : OAuthProfile → Form
unfolding join_space
scope_form o =
    let client = set_given (codes "client_id") o.client_id [] in
    if not (is_nil o.scopes) then insert (codes "scope") (join_space o.scopes) client else client

-- loginDevice; `start` is the reading of the clock that the deadline is counted from.
unfoldable pub login_device :
    Decoders → Post → ℕ → Turns → ℕ → Text → OAuthProfile → Option (Result OauthError Material)
unfolding read_device
login_device decoders post start turns fuel profile o = elim (device_authorize_url o) [
  | err e ↦ some (err e)
  | ok url ↦ elim (read_device decoders (post url (scope_form o))) [
    | err e ↦ some (err e)
    | ok dev ↦
        poll_loop decoders turns (polling_of profile o dev start) fuel 0 (start + turns.begun)
  ]
]

-- The seconds between two polls: those that the provider asks for, or 5 where it asks for none.
abbrev pub IsGap : DeviceResponse → ℕ → Type 0
IsGap dev gap =
    ((dev.interval ≡ pos gap) × (0 < gap)) ⊎ ((positive dev.interval ≡ none) × (gap ≡ 5))

unasked_five :
    (n : ℤ) → positive n ≡ none → (elim (positive n) [ none ↦ pos 5 | some k ↦ pos k ]) ≡ pos 5
unasked_five (pos zero) h = refl
unasked_five (pos (suc k)) h = cc
unasked_five (negsuc k) h = refl

IsGap-interval_of : (dev : DeviceResponse) (gap : ℕ) → IsGap dev gap → interval_of dev ≡ pos gap
IsGap-interval_of dev (suc gap) (inl (asked, above)) = rw asked refl
IsGap-interval_of dev zero (inl (asked, above)) = absurd (omega arith)
IsGap-interval_of dev gap (inr (unasked, five)) =
    unasked_five dev.interval unasked ∙ ap pos (sym five)

Poll-cases :
    (x : Poll)
    → (x ≡ pending) ⊎ ((e : OauthError) × (x ≡ failed e)) ⊎ ((t : TokenResponse) × (x ≡ got t))
Poll-cases pending = inl refl
Poll-cases (failed e) = inr (inl (e, refl))
Poll-cases (got t) = inr (inr (t, refl))

-- A turn in time ends the loop, or leaves it to the next one.
poll_loop_turn :
    (decoders : Decoders) (turns : Turns) (p : Polling) (fuel i now : ℕ)
    → poll_loop decoders turns p fuel (i + 1) (now + p.wait + turns.late i + turns.rest i) ≢ none
    → poll_loop decoders turns p (suc fuel) i now ≢ none
unfolding poll_loop
poll_loop_turn decoders turns p fuel i now next =
    let answer = poll_device decoders (turns.post i) p.token_url p.client_id p.device_code in
    elim (Bool-cases (ltb now p.deadline)) [
      | inr late ↦ ground (arith, late)
      | inl early ↦ elim (Bool-cases (turns.gone i)) [
        | inl gone ↦ ground (arith, early, gone)
        | inr there ↦ elim (Poll-cases answer) [
          | inl waits ↦ ground (arith, early, there, waits, next)
          | inr (inl (e, bad)) ↦ ground (arith, early, there, bad)
          | inr (inr (t, good)) ↦ ground (arith, early, there, good)
        ]
      ]
    ]

poll_loop-ends :
    (decoders : Decoders) (turns : Turns) (p : Polling) (fuel i now : ℕ)
    → p.deadline ≤ now + fuel * p.wait
    → poll_loop decoders turns p (suc fuel) i now ≢ none
unfolding poll_loop
poll_loop-ends decoders turns p zero i now h = ground arith
poll_loop-ends decoders turns p (suc fuel) i now h =
    poll_loop_turn decoders turns p (suc fuel) i now (
      poll_loop-ends decoders turns p fuel (i + 1) (now + p.wait + turns.late i + turns.rest i)
        (omega (arith, h)))

-- A device login ends, whatever the answers to its polls and however late they come: with a device
-- code of `life` seconds and a poll every `gap` seconds, where a provider that asks for no interval
-- gets 5 seconds, it ends after no more turns of the loop than bring `gap` up to `life`. Both times
-- are less than 292 years.
pub login_device-ends :
    (decoders : Decoders) (post : Post) (start : ℕ) (turns : Turns) (polls life gap : ℕ)
    (profile url : Text) (o : OAuthProfile) (dev : DeviceResponse)
    → device_authorize_url o ≡ ok url
    → read_device decoders (post url (scope_form o)) ≡ ok dev
    → dev.expires_in ≡ pos life
    → IsGap dev gap
    → life < 9_223_372_036
    → gap < 9_223_372_036
    → life ≤ polls * gap
    → login_device decoders post start turns (suc polls) profile o ≢ none
unfolding login_device
login_device-ends decoders post start turns polls life gap profile url o dev located answered lives
      spaced small brief enough =
    let deadline : add_time start (seconds dev.expires_in) ≡ start + life * 1_000_000_000 =
      rw (lives, seconds-small life small) refl in
    let wait : wait_of (seconds (interval_of dev)) ≡ gap * 1_000_000_000 =
      rw (IsGap-interval_of dev gap spaced, seconds-small gap brief) refl in
    let waits : polls * wait_of (seconds (interval_of dev)) ≡ polls * gap * 1_000_000_000 =
      ap (λ n. polls * n) wait ∙ sym (mul_assoc polls gap 1_000_000_000) in
    rw (login_device, located, answered)
      (poll_loop-ends decoders turns (polling_of profile o dev start) polls 0 (start + turns.begun)
        (omega (arith, deadline, enough, waits)))
