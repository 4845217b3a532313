-- ===== src/Credential/Store/Readback.antt =====
-- What the credential store in memory gives back of what was put into it.
use daigate.Prelude.{
  Text, ℕ, ◌+◌, [], ◌∷◌, ◌++◌, text_eq, text_eq_iff, text_eq_refl, lookup, insert, lookup-insert,
  false, some, ok, Result-cases, Option-cases, ◌≡◌, ◌≢◌, inl, inr, refl, sym, ◌∙◌, ap, arith, subst,
}
use daigate.Credential.Material.{Kind, api_key, Material}
use daigate.Credential.Seal.{Cipher, encrypt, decrypt, decrypt-encrypt}
use daigate.Credential.Payload.{Json, api_key_payload, material_from_decrypted, empty_material}
use daigate.Credential.Store.{
  CredentialRow, Memory, row_at, put_row, decrypt_row, get_row, get, put, put_api_key,
}
use daigate.Credential.Store.Laws.{IsConsistent, row_at-append, row_at-put}

module _ (c : Cipher) (json : Json) where
  -- A put that succeeds: the row it has added.
  pub record IsPut (profile : Text) (kind : Kind) (plain : Text) (id : ℕ) (m m' : Memory)
      : Type 0 where
    pub row : CredentialRow
    pub same_profile : row.profile ≡ profile
    pub same_kind : row.kind ≡ kind
    pub active : row.disabled_cause ≡ []
    pub next : row.id ≡ m.next_id + 1
    pub same_id : row.id ≡ id
    pub opens : decrypt c m.key row.data_enc ≡ ok plain
    pub now : ℕ
    pub result : m' ≡ put_row row now m

  pub put-IsPut :
      (profile : Text) (kind : Kind) (identity plain nonce : Text) (now id : ℕ) (m m' : Memory)
      → put c json profile kind identity plain nonce now m ≡ (ok id, m')
      → IsPut profile kind plain id m m'
  unfolding put
  put-IsPut profile kind identity plain nonce now id m m' done =
      elim (Result-cases (encrypt c m.key nonce plain)) [
        | inr (e, failed) ↦ absurd (ground (arith, failed, done))
        | inl (enc, fine) ↦
            let row : CredentialRow = record {
              id = m.next_id + 1;
              profile = profile;
              kind = kind;
              identity = identity;
              disabled_cause = [];
              created_at = now;
              updated_at = now;
              data_enc = enc;
            } in
            let made = rw (put, fine) at done in
            record {
              row = row;
              same_profile = refl;
              same_kind = refl;
              active = refl;
              next = refl;
              same_id = ground (arith, made);
              opens = decrypt-encrypt c m.key nonce plain fine;
              now = now;
              result = sym (ap (λ r. r.1) made);
            }
      ]

  -- Get finds the row that a put has added, and opens it.
  get-put_lem :
      (profile : Text) (kind : Kind) (plain : Text) (id : ℕ) (m m' : Memory) (mat : Material)
      → IsConsistent m
      → IsPut profile kind plain id m m'
      → material_from_decrypted json profile kind plain ≡ ok mat
      → get c json profile m' ≡ ok mat
  unfolding get get_row put_row decrypt_row
  get-put_lem profile kind plain id m m' mat h p fine =
      let l : lookup profile (insert p.row.profile p.row.id m.by_prof) ≡ some p.row.id =
        lookup-insert p.row.profile profile p.row.id m.by_prof
        ∙ rw (p.same_profile, text_eq_refl profile) refl in
      let there = row_at-put m p.row h p.next in
      let opened : decrypt_row c json m.key p.row ≡ ok mat =
        rw (decrypt_row, p.opens, p.same_profile, p.same_kind, fine) refl in
      subst (λ (x : Memory). get c json profile x ≡ ok mat) (sym p.result)
        (rw (get, put_row, l, there, get_row, p.active) opened)

  -- A stored API key is read back: after PutAPIKey has succeeded on a consistent store, Get of the
  -- profile gives the very key, whatever the profile held before, disabled or not.
  pub get-put_api_key :
      (profile key nonce : Text) (now id : ℕ) (m m' : Memory)
      → IsConsistent m
      → put_api_key c json profile key nonce now m ≡ (ok id, m')
      → get c json profile m' ≡ ok (record (empty_material profile api_key) { api_key = key })
  unfolding put_api_key material_from_decrypted
  get-put_api_key profile key nonce now id m m' h done =
      let plain = json.marshal_api (api_key_payload key) in
      get-put_lem profile api_key plain id m m' _ h
        (put-IsPut profile api_key [] plain nonce now id m m' done)
        (rw (material_from_decrypted, json.unmarshal-marshal_api (api_key_payload key)) refl)

  -- Storing a credential changes no other profile: after a put of either kind that succeeds on a
  -- consistent store, Get of any other profile gives what it gave before.
  pub get-put_other :
      (profile other : Text) (kind : Kind) (identity plain nonce : Text) (now id : ℕ)
      (m m' : Memory)
      → IsConsistent m
      → put c json profile kind identity plain nonce now m ≡ (ok id, m')
      → other ≢ profile
      → get c json other m' ≡ get c json other m
  unfolding get put_row
  get-put_other profile other kind identity plain nonce now id m m' h done ne =
      let p = put-IsPut profile kind identity plain nonce now id m m' done in
      let distinct : text_eq p.row.profile other ≡ false =
        ground (arith, text_eq_iff p.row.profile other, p.same_profile, ne) in
      let l : lookup other (insert p.row.profile p.row.id m.by_prof) ≡ lookup other m.by_prof =
        lookup-insert p.row.profile other p.row.id m.by_prof ∙ rw distinct refl in
      let m'' = put_row p.row p.now m in
      let to_result : get c json other m'' ≡ get c json other m
          → get c json other m' ≡ get c json other m =
        (λ e. ap (λ x. get c json other x) p.result ∙ e) in
      elim (Option-cases (lookup other m.by_prof)) [
        | inl missing ↦ to_result (rw (get, put_row, l, missing) refl)
        | inr (j, known) ↦
            let (r, there, own) = h.owned other j known in
            let there' : row_at j (m.rows ++ p.row ∷ []) ≡ some r =
              row_at-append j m.rows p.row ∙ rw there refl in
            to_result (rw (get, put_row, l, known, there, there') refl)
      ]
