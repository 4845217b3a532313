-- ===== src/Credential/Oauth/Refresh.antt =====
-- The refresh of a stored login (RefreshProfile in credential/oauth/generic/oauth.go) over the
-- operations of the store that it calls.
pub mod Laws
use daigate.Prelude.{
  Text, ℕ, zero, suc, ◌+◌, List, [], ◌∷◌, is_empty, trim_space, lookup, if◌then◌else◌, not, ◌&&◌,
  Bool, true, false, Option, none, some, Result, ok, err, ◌≡◌, ◌≢◌, ◌⊎◌, refl, sym, ap, ◌∙◌, arith,
  Bool-cases, Option-cases, Result-cases, inl, inr, subst,
}
use daigate.Config.{OAuthProfile}
use daigate.Credential.Material.{Kind, oauth, api_key, other_kind, Material}
use daigate.Credential.Seal.{Cipher, encrypt}
use daigate.Credential.Payload.{Json, merge_extras, oauth_material_payload}
use daigate.Credential.Store.{StoreError, Memory, row_at, get, is_oauth, update_row, update_oauth}
use daigate.Credential.Store.Laws.{IsConsistent}
use daigate.Credential.Oauth.{
  Post, Decoders, OauthError, not_oauth, no_refresh_token, store_failed, store_write_failed,
  cancelled, TokenResponse, token_to_material, read_token, refresh_token_for,
}

-- store.Store, without the operations that a refresh does not call. What an update draws of clock
-- and random bytes depends on the attempt.
pub record RefreshStore (S : Type 0) : Type 0 where
  pub get_profile : Text → S → Result StoreError Material
  pub update : Text → Material → ℕ → S → Result StoreError Unit × S

-- The refreshed material with what it lacks of the current one.
unfoldable pub completed : Text → Material → Material → Material
completed profile cur mat = record mat {
  profile = profile;
  kind = oauth;
  email = if is_empty mat.email then cur.email else mat.email;
  extras = merge_extras cur.extras mat.extras;
}

module _ {S : Type 0} (store : RefreshStore S) (gone : ℕ → Bool) (profile : Text)
    (mat : Material) where
  -- The loop of writes with `left` attempts left; `gone` says whether the context ends in the pause
  -- after an attempt.
  unfoldable pub write_attempts : ℕ → ℕ → Option StoreError → S → Result OauthError Unit × S
  write_attempts zero attempt last_err s = (err (store_write_failed last_err), s)
  write_attempts (suc left) attempt last_err s =
      let (written, s') = store.update profile mat attempt s in
      elim written [
        | ok done ↦ (ok tt, s')
        | err e ↦
            if gone attempt
            then (err cancelled, s')
            else write_attempts left (attempt + 1) (some e) s'
      ]

unfoldable pub refresh_profile :
    {S : Type 0}
    → RefreshStore S
    → Decoders
    → Post
    → ℕ
    → (ℕ → Bool)
    → Text
    → OAuthProfile
    → S
    → Result OauthError Unit × S
unfolding completed write_attempts
refresh_profile store decoders post now gone profile o s = elim (store.get_profile profile s) [
  | err e ↦ (err (store_failed e), s)
  | ok cur ↦
      if not (is_oauth cur.kind)
      then (err (not_oauth profile), s)
      else if is_empty (trim_space cur.refresh_token)
      then (err (no_refresh_token profile), s)
      else elim (refresh_token_for decoders post now o cur.refresh_token) [
        | err e ↦ (err e, s)
        | ok mat ↦ write_attempts store gone profile (completed profile cur mat) 3 0 none s
      ]
]

-- The store in memory as the store of a refresh.
abbrev pub memory_store : Cipher → Json → (ℕ → Text) → (ℕ → ℕ) → RefreshStore Memory
memory_store c json nonce now = record {
  get_profile = get c json;
  update = λ profile mat attempt m. update_oauth c json profile mat (nonce attempt) (now attempt) m;
}
