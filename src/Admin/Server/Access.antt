-- ===== src/Admin/Server/Access.antt =====
-- What a request to the administration plane can reach by its token.
use daigate.Prelude.{
  Text, [], codes, text_eq, has_prefix, has_prefix-append_false, text_eq_refl, Bool, true, false,
  ◌||◌, none, some, not, ◌≡◌, ◌≢◌, refl, arith, Bool-cases, Option-cases, Result-cases, inl, inr,
}
use daigate.Http.{max_request_body}
use daigate.Keyring.Argonhash.{Crypto}
use daigate.Admin.Auth.{bearer, role_for, require, is_denied, role_provision, unauthorized}
use daigate.Admin.Server.{
  Codecs, Server, AdminRefusal, redirected, not_served, Vault, AdminRequest, Draw, Answer, refused,
  denied, healthy, no_content, summaries, summary_answer, snapshot_answer, snapshot_stream,
  imported, minted, create_key, revoke_key, mint_call, id_after, route, serve_admin, is_call,
  is_call_under,
}

-- An answer that tells of the upstream credentials or changes them.
abbrev pub shows_credentials : Answer → Bool
shows_credentials (refused e) = false
shows_credentials healthy = false
shows_credentials no_content = false
shows_credentials (minted id secret) = false
shows_credentials (summaries l) = true
shows_credentials (summary_answer c) = true
shows_credentials (snapshot_answer m) = true
shows_credentials (snapshot_stream m) = true
shows_credentials (imported id provider) = true

not_denied :
    (path : Text)
    → is_denied path ≡ false
    → (text_eq path (codes "/v1/credentials") ≡ false)
      × (has_prefix path (codes "/v1/credentials/") ≡ false)
      × (text_eq path (codes "/v1/snapshot/stream") ≡ false)
      × (text_eq path (codes "/v1/snapshot") ≡ false)
unfolding is_denied codes
not_denied path h =
    let credentials : has_prefix path (codes "/v1/credentials") ≡ false = ground (arith, h) in
    let snapshot : has_prefix path (codes "/v1/snapshot") ≡ false = ground (arith, h) in
    (
      (has_prefix-append_false path (codes "/v1/credentials") [] credentials).0,
      (has_prefix-append_false path (codes "/v1/credentials") (codes "/") credentials).1,
      (has_prefix-append_false path (codes "/v1/snapshot") (codes "/stream") snapshot).0,
      (has_prefix-append_false path (codes "/v1/snapshot") [] snapshot).0,
    )

module _ {S K : Type 0} where
  -- The credentials are as before, and the answer does not tell of them.
  abbrev pub IsShielded : Vault S K → Answer × Vault S K → Type 0
  IsShielded v x = (x.1.credentials ≡ v.credentials) × (shows_credentials x.0 ≡ false)

module _ (codecs : Codecs) {S K : Type 0} (server : Server S K) where
  create_key-IsShielded :
      (role : Text) (r : AdminRequest) (draw : Draw) (v : Vault S K)
      → IsShielded v (create_key codecs server role r draw v)
  unfolding create_key
  create_key-IsShielded role r draw v =
      elim (Option-cases (codecs.decode_key max_request_body r.body)) [
        | inl bad ↦ rw (create_key, bad) (refl, refl)
        | inr (req, read) ↦ elim (Result-cases (mint_call codecs server role req draw)) [
          | inr (e, failed) ↦ rw (create_key, read, failed) (refl, refl)
          | inl (call, fine) ↦ elim (Result-cases (server.key_store.create call v.keys).0) [
            | inr (e, failed) ↦ rw (create_key, read, fine, failed) (refl, refl)
            | inl (out, made) ↦ rw (create_key, read, fine, made) (refl, refl)
          ]
        ]
      ]

  revoke_key-IsShielded :
      (r : AdminRequest) (v : Vault S K) → IsShielded v (revoke_key codecs server r v)
  unfolding revoke_key
  revoke_key-IsShielded r v = elim (Option-cases (id_after (codes "/v1/keys/") r.path)) [
    | inl bad ↦ rw (revoke_key, bad) (refl, refl)
    | inr (id, read) ↦ elim (Result-cases (server.key_store.revoke id v.keys).0) [
      | inr (e, failed) ↦ rw (revoke_key, read, failed) (refl, refl)
      | inl (u, gone) ↦ rw (revoke_key, read, gone) (refl, refl)
    ]
  ]

  route-IsShielded :
      (role : Text) (r : AdminRequest) (draw : Draw) (v : Vault S K)
      → is_denied r.path ≡ false
      → IsShielded v (route codecs server role r draw v)
  unfolding route
  route-IsShielded role r draw v h =
      let (listed, under, stream, snapshot) = not_denied r.path h in
      elim (Bool-cases (is_call r (codes "/v1/keys") (codes "POST"))) [
        | inl minting ↦
            rw (route, listed, under, stream, snapshot, minting)
              (create_key-IsShielded role r draw v)
        | inr other ↦ elim (Bool-cases (is_call_under r (codes "/v1/keys/") (codes "DELETE"))) [
          | inl revoking ↦
              rw (route, listed, under, stream, snapshot, other, revoking)
                (revoke_key-IsShielded r v)
          | inr nothing ↦ rw (route, listed, under, stream, snapshot, other, nothing) (refl, refl)
        ]
      ]

  module _ (crypto : Crypto) where
    -- The credentials are out of the reach of a provision token: whatever the request, they stay as
    -- they are, and the answer lists none, shows none and gives no snapshot.
    pub serve_admin-IsShielded :
        (r : AdminRequest) (draw : Draw) (v : Vault S K) (tok : Text)
        → bearer r.headers ≡ some tok
        → role_for crypto server.auth tok ≡ some role_provision
        → IsShielded v (serve_admin codecs server crypto r draw v)
    unfolding serve_admin require
    serve_admin-IsShielded r draw v tok given known =
        let own = text_eq_refl role_provision in
        elim (Bool-cases (not (codecs.is_clean r.method r.path) || text_eq r.path (codes "/v1"))) [
          | inl moved ↦ rw (serve_admin, moved) (refl, refl)
          | inr clean ↦ elim (Bool-cases (text_eq r.path (codes "/v1/healthz"))) [
            | inl health ↦ rw (serve_admin, clean, health) (refl, refl)
            | inr other ↦ elim (Bool-cases (has_prefix r.path (codes "/v1/"))) [
              | inr outside ↦ rw (serve_admin, clean, other, outside) (refl, refl)
              | inl inside ↦ elim (Bool-cases (is_denied r.path)) [
                | inl closed ↦
                    rw (serve_admin, clean, other, inside, require, given, known, own, closed)
                      (refl, refl)
                | inr allowed ↦
                    rw (serve_admin, clean, other, inside, require, given, known, own, allowed)
                      (route-IsShielded role_provision r draw v allowed)
              ]
            ]
          ]
        ]

    -- A request without a token of the plane changes neither store, and is answered with the health
    -- check, a refusal or a redirection.
    pub serve_admin-unknown :
        (r : AdminRequest) (draw : Draw) (v : Vault S K)
        → ((tok : Text) → bearer r.headers ≡ some tok → role_for crypto server.auth tok ≡ none)
        → ((serve_admin codecs server crypto r draw v).1 ≡ v)
          × ((serve_admin codecs server crypto r draw v).0 ≢ healthy
              → (e : AdminRefusal) × ((serve_admin codecs server crypto r draw v).0 ≡ refused e))
    unfolding serve_admin require
    serve_admin-unknown r draw v h =
        elim (Bool-cases (not (codecs.is_clean r.method r.path) || text_eq r.path (codes "/v1"))) [
          | inl moved ↦ rw (serve_admin, moved) (refl, λ k. (redirected, refl))
          | inr clean ↦ elim (Bool-cases (text_eq r.path (codes "/v1/healthz"))) [
            | inl health ↦ rw (serve_admin, clean, health) (refl, λ k. absurd (k refl))
            | inr other ↦ elim (Bool-cases (has_prefix r.path (codes "/v1/"))) [
              | inr outside ↦
                  rw (serve_admin, clean, other, outside) (refl, λ k. (not_served, refl))
              | inl inside ↦ elim (Option-cases (bearer r.headers)) [
                | inl missing ↦
                    rw (serve_admin, clean, other, inside, require, missing)
                      (refl, λ k. (denied unauthorized, refl))
                | inr (tok, given) ↦
                    rw (serve_admin, clean, other, inside, require, given, h tok given)
                      (refl, λ k. (denied unauthorized, refl))
              ]
            ]
          ]
        ]
