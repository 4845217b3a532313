-- ===== src/Admin/Server/Lifecycle.antt =====
-- A gateway key from its minting over the administration plane to its use and its revocation.
use daigate.Prelude.{
  Text, ℕ, ◌+◌, ◌*◌, ◌≤◌, ◌<◌, ◌^◌, [], ◌∷◌, ◌++◌, codes, text_eq, has_prefix, is_empty, trim_space,
  trim_prefix-append, decimal, parse_int-decimal, true, false, Option, some, ok, err, Result, pos,
  positive, zero, suc, ◌≡◌, ◌⊎◌, refl, sym, ap, ◌∙◌, arith, Bool-cases, Result-cases, inl, inr,
  if◌then◌else◌,
}
use daigate.Http.{header_get}
use daigate.Http.{max_request_body}
use daigate.Config.{AdminConfig}
use daigate.Catalog.Document.{Catalog}
use daigate.Keyring.Argonhash.{Crypto}
use daigate.Keyring.Secret.{bearer_token, parse_key_id}
use daigate.Keyring.Keys.{
  KeyError, invalid_gateway_key, CreateCall, expiry, is_expired, unix_milli, stored_scopes,
}
use daigate.Keyring.SqlStore.{SqlStore, sql_create, sql_revoke, sql_verify}
use daigate.Keyring.SqlStore.Laws.{
  IsSequenced, sql_verify-sql_create, sql_verify-sql_create_expired,
}
use daigate.Keyring.SqlStore.Revocation.{sql_verify-sql_revoke}
use daigate.Credential.Policy.{hour, provision_policy_from_config}
use daigate.Admin.Auth.{bearer, role_for, require, is_denied, role_provision}
use daigate.Admin.Server.{
  Codecs, Server, Vault, AdminRequest, Draw, minted, KeyRequest, KeyStore, created, create_key,
  revoke_key, route, serve_admin, id_after,
}
use daigate.Admin.Server.Stores.{sql_key_store}
use daigate.Admin.Server.Provision.{create_key-IsProvisioned}
use daigate.Wire.Engine.{Request, Engine, Run, stop, unauthorized}
use daigate.Wire.Engine as Engine
use daigate.Wire.Ingress.{authenticate, with_auth}

-- The request DELETE /v1/keys/<id>.
abbrev pub revocation_path : ℕ → Text
revocation_path id = codes "/v1/keys/" ++ decimal id

revocation_path_routes :
    (s : Text)
    → let path = codes "/v1/keys/" ++ s in
      (text_eq path (codes "/v1") ≡ false)
      × (text_eq path (codes "/v1/healthz") ≡ false)
      × (has_prefix path (codes "/v1/") ≡ true)
      × (is_denied path ≡ false)
      × (text_eq path (codes "/v1/credentials") ≡ false)
      × (has_prefix path (codes "/v1/credentials/") ≡ false)
      × (text_eq path (codes "/v1/snapshot/stream") ≡ false)
      × (text_eq path (codes "/v1/snapshot") ≡ false)
      × (text_eq path (codes "/v1/keys") ≡ false)
      × (has_prefix path (codes "/v1/keys/") ≡ true)
unfolding codes text_eq has_prefix is_denied
revocation_path_routes s = (refl, refl, refl, refl, refl, refl, refl, refl, refl, refl)

id_after-revocation_path :
    (id : ℕ) → 0 < id → id < 2 ^ 63 → id_after (codes "/v1/keys/") (revocation_path id) ≡ some id
unfolding id_after
id_after-revocation_path zero above h = absurd (omega (arith, above))
id_after-revocation_path (suc n) above h =
    rw
      (
        id_after,
        trim_prefix-append (codes "/v1/keys/") (decimal (suc n)),
        parse_int-decimal (suc n) h,
      )
      refl

delete_routes :
    (text_eq (codes "DELETE") (codes "GET") ≡ false)
    × (text_eq (codes "DELETE") (codes "POST") ≡ false)
    × (text_eq (codes "DELETE") (codes "DELETE") ≡ true)
unfolding codes text_eq
delete_routes = (refl, refl, refl)

module _ (crypto : Crypto) (codecs : Codecs) {S : Type 0} (server : Server S SqlStore) where
  revoke_key-keys :
      (r : AdminRequest) (v : Vault S SqlStore) (id : ℕ)
      → server.key_store ≡ sql_key_store crypto
      → id_after (codes "/v1/keys/") r.path ≡ some id
      → (revoke_key codecs server r v).1.keys ≡ (sql_revoke id v.keys).1
  unfolding revoke_key
  revoke_key-keys r v id same read =
      let done : (revoke_key codecs server r v).1.keys ≡ (server.key_store.revoke id v.keys).1 =
        elim (Result-cases (server.key_store.revoke id v.keys).0) [
          | inl (u, gone) ↦ rw (revoke_key, read, gone) refl
          | inr (e, failed) ↦ rw (revoke_key, read, failed) refl
        ] in
      done ∙ ap (λ (k : KeyStore SqlStore). (k.revoke id v.keys).1) same

  route-revocation :
      (role : Text) (r : AdminRequest) (draw : Draw) (v : Vault S SqlStore) (id : ℕ)
      → r.method ≡ codes "DELETE"
      → r.path ≡ revocation_path id
      → route codecs server role r draw v ≡ revoke_key codecs server r v
  unfolding route
  route-revocation role r draw v id m p =
      let (bare, health, plane, open_path, listed, under, stream, snapshot, keys, key) =
        revocation_path_routes (decimal id) in
      let (get, post, delete) = delete_routes in
      rw (route, m, p, listed, under, stream, snapshot, keys, key, delete) refl

  serve_admin-revocation :
      (r : AdminRequest) (draw : Draw) (v : Vault S SqlStore) (tok role : Text) (id : ℕ)
      → codecs.is_clean r.method r.path ≡ true
      → r.method ≡ codes "DELETE"
      → r.path ≡ revocation_path id
      → bearer r.headers ≡ some tok
      → role_for crypto server.auth tok ≡ some role
      → serve_admin codecs server crypto r draw v ≡ revoke_key codecs server r v
  unfolding serve_admin require
  serve_admin-revocation r draw v tok role id clean m p given known =
      let (bare, health, plane, open_path, listed, under, stream, snapshot, keys, key) =
        revocation_path_routes (decimal id) in
      let bare' : text_eq r.path (codes "/v1") ≡ false =
        ap (λ x. text_eq x (codes "/v1")) p ∙ bare in
      let health' : text_eq r.path (codes "/v1/healthz") ≡ false =
        ap (λ x. text_eq x (codes "/v1/healthz")) p ∙ health in
      let plane' : has_prefix r.path (codes "/v1/") ≡ true =
        ap (λ x. has_prefix x (codes "/v1/")) p ∙ plane in
      let open_path' : is_denied r.path ≡ false = ap is_denied p ∙ open_path in
      let pass : require crypto server.auth r.headers r.path ≡ ok role =
        ground (arith, given, known, open_path') in
      rw (serve_admin, clean, bare', health', plane', pass) (route-revocation role r draw v id m p)

  -- Once an administrator or a provisioner has sent DELETE /v1/keys/<id>, whether or not the table
  -- has such a key, no request with a text that reads as this id passes the gateway: it is answered
  -- that it is unauthorized, no handler is called and no rotation counter moves. The DELETE carries
  -- a token of the plane, and its path is in the clean form that the mux serves.
  pub with_auth-revoked :
      (r : AdminRequest) (draw : Draw) (v : Vault S SqlStore) (tok role : Text) (id : ℕ)
      (e : Engine.Engine) (cat : Catalog) (req : Request) (wire : Text) (now : ℕ) (token : Text)
      → server.key_store ≡ sql_key_store crypto
      → codecs.is_clean r.method r.path ≡ true
      → r.method ≡ codes "DELETE"
      → r.path ≡ revocation_path id
      → 0 < id
      → id < 2 ^ 63
      → bearer r.headers ≡ some tok
      → role_for crypto server.auth tok ≡ some role
      → bearer_token (header_get req.headers (codes "Authorization")) ≡ ok token
      → parse_key_id token ≡ some id
      → with_auth
          (sql_verify crypto (serve_admin codecs server crypto r draw v).1.keys now)
          e
          cat
          req
          wire
        ≡ (stop (Engine.refused unauthorized) [], cat)
  unfolding with_auth authenticate
  with_auth-revoked r draw v tok role id e cat req wire now token same clean m p above small given
        known presented read =
      let keys : (serve_admin codecs server crypto r draw v).1.keys ≡ (sql_revoke id v.keys).1 =
        ap (λ x. x.1.keys) (serve_admin-revocation r draw v tok role id clean m p given known)
        ∙ revoke_key-keys r v id same
            (ap (id_after (codes "/v1/keys/")) p ∙ id_after-revocation_path id above small) in
      let dead : sql_verify crypto (serve_admin codecs server crypto r draw v).1.keys now token
          ≡ err invalid_gateway_key =
        ap (λ k. sql_verify crypto k now token) keys
        ∙ sql_verify-sql_revoke crypto v.keys id now token
        ∙ ground (arith, read) in
      ground (arith, presented, dead)

positive-pos_of : (n : ℕ) → 0 < n → positive (pos n) ≡ some n
positive-pos_of zero h = absurd (omega (arith, h))
positive-pos_of (suc n) h = refl

expiry-positive :
    (call : CreateCall) (ttl start : ℕ)
    → call.ttl ≡ pos ttl
    → 0 < ttl
    → call.now_expiry ≡ start
    → expiry call ≡ ok (some (unix_milli (start + ttl)))
unfolding expiry
expiry-positive call ttl start lives above started =
    rw (expiry, lives, positive-pos_of ttl above, started) refl

module _ (crypto : Crypto) (codecs : Codecs) {S : Type 0} (server : Server S SqlStore) where
  created_sound :
      (v v' : Vault S SqlStore) (x : Result KeyError (Text × ℕ) × SqlStore) (id : ℕ) (secret : Text)
      → created v x ≡ (minted id secret, v')
      → x ≡ (ok (secret, id), v'.keys)
  created_sound v v' (err e, k) id secret h = cc
  created_sound v v' (ok (secret', id'), k) id secret h = ground (arith, h, ap (λ y. y.1.keys) h)

  -- What a provision token has minted, the gateway accepts for the scopes of the provision policy
  -- until the ttl is over, and refuses from then on; the ttl is at most the policy's cap, or 24
  -- hours where the request gave none. The random tail is not empty and the id fits in an int64.
  pub sql_verify-minted :
      (f : Option AdminConfig) (r : AdminRequest) (draw : Draw) (v v' : Vault S SqlStore)
      (id c now : ℕ) (secret tail : Text)
      → server.key_store ≡ sql_key_store crypto
      → server.provision_policy ≡ provision_policy_from_config codecs.parse_duration f
      → IsSequenced v.keys
      → v.keys.seq + 1 < 2 ^ 63
      → draw.tail ≡ c ∷ tail
      → create_key codecs server role_provision r draw v ≡ (minted id secret, v')
      → (req : KeyRequest) × (ttl : ℕ) × (codecs.decode_key max_request_body r.body ≡ some req)
        × ((ttl ≤ server.provision_policy.max_ttl)
            ⊎ ((is_empty (trim_space req.ttl) ≡ true) × (ttl ≡ 24 * hour)))
        × (sql_verify crypto v'.keys now secret ≡ (
            if is_expired now (some (unix_milli (draw.now_expiry + ttl)))
            then err invalid_gateway_key
            else ok (record {
              id = req.name;
              key_id = id;
              scopes = stored_scopes server.provision_policy.scopes;
            })))
  sql_verify-minted f r draw v v' id c now secret tail same policy w small t h =
      elim (create_key-IsProvisioned codecs server f r draw v policy) [
        | inl (e, failed) ↦ absurd (cc (failed, h))
        | inr (req, call, decoded, made, run) ↦
            let created_by : sql_create crypto call v.keys ≡ (ok (secret, id), v'.keys) =
              ap (λ (k : KeyStore SqlStore). k.create call v.keys) (sym same)
              ∙ created_sound v v' (server.key_store.create call v.keys) id secret (sym run ∙ h) in
            let ends = unix_milli (draw.now_expiry + made.ttl) in
            let worked : expiry call ≡ ok (some ends) =
              expiry-positive call made.ttl draw.now_expiry made.lives made.positive made.started in
            (
              req,
              made.ttl,
              decoded,
              made.bounded,
              elim (Bool-cases (is_expired now (some ends))) [
                | inl late ↦ rw late (
                    sql_verify-sql_create_expired crypto call v.keys v'.keys secret id now c tail
                      (some ends) w small (made.random ∙ t) worked late created_by)
                | inr live ↦ rw live (
                    sql_verify-sql_create crypto call v.keys v'.keys secret id now c tail
                      (some ends) w small (made.random ∙ t) worked live created_by
                    ∙ rw (made.named, made.fixed) refl)
              ],
            )
      ]
