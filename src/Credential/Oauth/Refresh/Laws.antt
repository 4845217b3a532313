-- ===== src/Credential/Oauth/Refresh/Laws.antt =====
-- What a refresh keeps, and what it does to the store.
use daigate.Prelude.{
  Text, drop_while, ℕ, zero, suc, ◌+◌, [], ◌∷◌, is_empty, trim_space, lookup, if◌then◌else◌, Bool,
  false, Option, none, some, Result, ok, err, ◌≡◌, ◌≢◌, ◌⊎◌, refl, sym, ap, arith, Bool-cases,
  Option-cases, Result-cases, inl, inr, subst,
}
use daigate.Config.{OAuthProfile}
use daigate.Credential.Material.{oauth, Material}
use daigate.Credential.Seal.{Cipher, encrypt}
use daigate.Credential.Payload.{Json, lookup-merge_extras, oauth_material_payload}
use daigate.Credential.Store.{
  StoreError, oauth_profile_not_found, nil_dereference, not_oauth, not_sealed, Memory, row_at,
  is_oauth, update_row, update_oauth,
}
use daigate.Credential.Store.Laws.{IsConsistent}
use daigate.Credential.Store.History.{update_oauth_op, run_op, run_op-IsConsistent}
use daigate.Credential.Oauth as Oauth
use daigate.Credential.Oauth.{
  Post, Decoders, OauthError, TokenResponse, token_to_material, read_token, refresh_token_for,
  store_failed, no_refresh_token, Form, set_given, refresh_refused, refresh_form,
}
use daigate.Credential.Oauth.Refresh.{
  RefreshStore, completed, write_attempts, refresh_profile, memory_store,
}

-- What a refresh writes over the current material: the tokens of the provider's answer, with the old
-- refresh token where the answer has none, and the email and the extras of the current material.
pub record IsKept (decoders : Decoders) (post : Post) (now : ℕ) (o : OAuthProfile) (profile : Text)
    (cur mat : Material) : Type 0 where
  pub tok : TokenResponse
  pub granted :
      read_token decoders refresh_refused (post o.token_url (refresh_form o cur.refresh_token))
      ≡ ok tok
  pub owned : mat.profile ≡ profile
  pub login : mat.kind ≡ oauth
  pub access : mat.access_token ≡ tok.access_token
  pub refresh :
      mat.refresh_token
      ≡ (if is_empty tok.refresh_token then cur.refresh_token else tok.refresh_token)
  pub refreshable : mat.refresh_token ≢ []
  pub lasting : mat.expires_at ≡ (token_to_material now [] tok).expires_at
  pub email_kept : mat.email ≡ cur.email
  pub extras_kept : (key : Text) → lookup key mat.extras ≡ lookup key cur.extras

nonempty_of : (t : Text) → is_empty t ≡ false → t ≢ []
nonempty_of [] h = cc
nonempty_of (c ∷ t) h = cc

-- The material of an answer to a refresh, with the old refresh token where the answer has none.
abbrev renewed_by : ℕ → Text → TokenResponse → Material
renewed_by now old tok = record (token_to_material now [] tok) {
  refresh_token = if is_empty tok.refresh_token then old else tok.refresh_token;
}

refresh_token_for_sound :
    (decoders : Decoders) (post : Post) (now : ℕ) (o : OAuthProfile) (old : Text) {mat : Material}
    → is_empty old ≡ false
    → refresh_token_for decoders post now o old ≡ ok mat
    → (tok : TokenResponse) × (read_token decoders refresh_refused
          (post o.token_url (refresh_form o old))
        ≡ ok tok)
      × (mat ≡ renewed_by now old tok)
unfolding refresh_token_for token_to_material
refresh_token_for_sound decoders post now o old {mat} given h =
    elim (Result-cases
      (read_token decoders refresh_refused (post o.token_url (refresh_form o old)))) [
        | inr (e, failed) ↦ absurd (ground (arith, failed, h))
        | inl (tok, read) ↦ elim (Bool-cases (is_empty tok.refresh_token)) [
          | inl bare ↦ (tok, read, ground (arith, read, given, bare, h))
          | inr renewed ↦ (tok, read, ground (arith, read, renewed, h))
        ]
      ]

update_oauth-cases :
    (c : Cipher) (json : Json) (profile : Text) (mat : Material) (nonce : Text) (now : ℕ)
    (m : Memory)
    → ((e : StoreError) × (update_oauth c json profile mat nonce now m ≡ (err e, m)))
      ⊎ ((m' : Memory) × (update_oauth c json profile mat nonce now m ≡ (ok tt, m'))
          × (m'.gen ≡ m.gen + 1))
unfolding update_oauth update_row
update_oauth-cases c json profile mat nonce now m = elim (Option-cases (lookup profile m.by_prof)) [
  | inl missing ↦ inl (oauth_profile_not_found profile, rw (update_oauth, missing) refl)
  | inr (id, known) ↦ elim (Option-cases (row_at id m.rows)) [
    | inl lost ↦ inl (nil_dereference, rw (update_oauth, update_row, known, lost) refl)
    | inr (r, found) ↦ elim (Bool-cases (is_oauth r.kind)) [
      | inr other ↦ inl (not_oauth profile, rw (update_oauth, update_row, known, found, other) refl)
      | inl login ↦
          elim (Result-cases
            (encrypt c m.key nonce (json.marshal_oauth (oauth_material_payload mat)))) [
              | inr (e, failed) ↦
                  inl
                    (not_sealed e, rw (update_oauth, update_row, known, found, login, failed) refl)
              | inl (enc, sealed) ↦ inr (
                (update_oauth c json profile mat nonce now m).1,
                rw (update_oauth, update_row, known, found, login, sealed) refl,
                rw (update_oauth, update_row, known, found, login, sealed) refl,
              )
            ]
    ]
  ]
]

renewed-ne-nil :
    (old : Text) (tok : TokenResponse)
    → is_empty old ≡ false
    → (if is_empty tok.refresh_token then old else tok.refresh_token) ≢ []
renewed-ne-nil old tok given = elim (Bool-cases (is_empty tok.refresh_token)) [
  | inl bare ↦ rw bare (nonempty_of old given)
  | inr renewed ↦ rw renewed (nonempty_of tok.refresh_token renewed)
]

completed-IsKept :
    (decoders : Decoders) (post : Post) (now : ℕ) (o : OAuthProfile) (profile : Text)
    (cur mat : Material)
    → is_empty cur.refresh_token ≡ false
    → refresh_token_for decoders post now o cur.refresh_token ≡ ok mat
    → IsKept decoders post now o profile cur (completed profile cur mat)
unfolding completed token_to_material
completed-IsKept decoders post now o profile cur mat given h =
    let (tok, read, same) =
      refresh_token_for_sound decoders post now o cur.refresh_token {mat = mat} given h in
    subst (λ m. IsKept decoders post now o profile cur (completed profile cur m)) (sym same)
      (record {
        tok = tok;
        granted = read;
        owned = refl;
        login = refl;
        access = refl;
        refresh = refl;
        refreshable = renewed-ne-nil cur.refresh_token tok given;
        lasting = refl;
        email_kept = refl;
        extras_kept = lookup-merge_extras cur.extras;
      })

trim_space-empty : (t : Text) → is_empty (trim_space t) ≡ false → is_empty t ≡ false
unfolding trim_space drop_while
trim_space-empty [] h = cc
trim_space-empty (c ∷ t) h = refl

pub refresh_profile-IsKept :
    {S : Type 0} (store : RefreshStore S) (decoders : Decoders) (post : Post) (now : ℕ)
    (gone : ℕ → Bool) (profile : Text) (o : OAuthProfile) (s : S)
    → ((e : OauthError) × (refresh_profile store decoders post now gone profile o s ≡ (err e, s)))
      ⊎ ((cur : Material) × (mat : Material) × (store.get_profile profile s ≡ ok cur)
          × IsKept decoders post now o profile cur mat
          × (refresh_profile store decoders post now gone profile o s
              ≡ write_attempts store gone profile mat 3 0 none s))
unfolding refresh_profile
refresh_profile-IsKept store decoders post now gone profile o s =
    elim (Result-cases (store.get_profile profile s)) [
      | inr (e, failed) ↦ inl (store_failed e, rw (refresh_profile, failed) refl)
      | inl (cur, found) ↦ elim (Bool-cases (is_oauth cur.kind)) [
        | inr other ↦ inl (Oauth.not_oauth profile, rw (refresh_profile, found, other) refl)
        | inl login ↦ elim (Bool-cases (is_empty (trim_space cur.refresh_token))) [
          | inl bare ↦ inl (no_refresh_token profile, rw (refresh_profile, found, login, bare) refl)
          | inr given ↦
              elim (Result-cases (refresh_token_for decoders post now o cur.refresh_token)) [
                | inr (e, failed) ↦ inl (e, rw (refresh_profile, found, login, given, failed) refl)
                | inl (mat, fresh) ↦ inr (
                  cur,
                  completed profile cur mat,
                  found,
                  completed-IsKept decoders post now o profile cur mat
                      (trim_space-empty cur.refresh_token given) fresh,
                  rw (refresh_profile, found, login, given, fresh) refl,
                )
              ]
        ]
      ]
    ]

-- What a refresh leaves of a consistent store: the next generation where it succeeds, and the store
-- as it was where it fails.
abbrev pub IsCommitted : Memory → Result OauthError Unit × Memory → Type 0
IsCommitted m (ok done, m') = (m'.gen ≡ m.gen + 1) × IsConsistent m'
IsCommitted m (err e, m') = m' ≡ m

module _ (c : Cipher) (json : Json) (nonce : ℕ → Text) (now : ℕ → ℕ) where
  updated-IsConsistent :
      (profile : Text) (mat : Material) (attempt : ℕ) (m : Memory)
      → IsConsistent m
      → IsConsistent (update_oauth c json profile mat (nonce attempt) (now attempt) m).1
  unfolding run_op
  updated-IsConsistent profile mat attempt m h =
      run_op-IsConsistent c json (update_oauth_op profile mat (nonce attempt) (now attempt)) m h

  write_attempts-IsCommitted :
      (gone : ℕ → Bool) (profile : Text) (mat : Material) (left attempt : ℕ)
      (last : Option StoreError) (m : Memory)
      → IsConsistent m
      → IsCommitted m
          (write_attempts (memory_store c json nonce now) gone profile mat left attempt last m)
  unfolding write_attempts
  write_attempts-IsCommitted gone profile mat zero attempt last m h = refl
  write_attempts-IsCommitted gone profile mat (suc left) attempt last m h =
      elim (update_oauth-cases c json profile mat (nonce attempt) (now attempt) m) [
        | inl (e, failed) ↦ elim (Bool-cases (gone attempt)) [
          | inl over ↦ rw (write_attempts, ap (λ x. x.0) failed, ap (λ x. x.1) failed, over) refl
          | inr there ↦
              rw (write_attempts, ap (λ x. x.0) failed, ap (λ x. x.1) failed, there)
                (write_attempts-IsCommitted gone profile mat left (attempt + 1) (some e) m h)
        ]
        | inr (m', done, next) ↦
            rw (write_attempts, ap (λ x. x.0) done, ap (λ x. x.1) done)
              (
                next,
                subst IsConsistent (ap (λ x. x.1) done)
                    (updated-IsConsistent profile mat attempt m h),
              )
      ]

  -- On a consistent store in memory a refresh writes once or not at all: it succeeds with the next
  -- generation of the store, or fails and leaves the store as it was, whatever its attempts met.
  pub refresh_profile-IsCommitted :
      (decoders : Decoders) (post : Post) (start : ℕ) (gone : ℕ → Bool) (profile : Text)
      (o : OAuthProfile) (m : Memory)
      → IsConsistent m
      → IsCommitted m
          (refresh_profile (memory_store c json nonce now) decoders post start gone profile o m)
  refresh_profile-IsCommitted decoders post start gone profile o m h =
      elim (refresh_profile-IsKept (memory_store c json nonce now) decoders post start gone profile
        o m) [
          | inl (e, failed) ↦ rw failed refl
          | inr (cur, mat, found, kept, run) ↦
              rw run (write_attempts-IsCommitted gone profile mat 3 0 none m h)
        ]
