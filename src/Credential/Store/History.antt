-- ===== src/Credential/Store/History.antt =====
-- Every history of operations on the credential store in memory.
use daigate.Prelude.{
  Text, ℕ, ◌+◌, List, [], ◌∷◌, lookup, Option, none, some, Result, ok, err, Result-cases,
  Option-cases, Bool-cases, ◌≡◌, ◌≢◌, inl, inr, refl, sym, arith, subst,
}
use daigate.Credential.Material.{Kind, api_key, oauth, Material}
use daigate.Credential.Seal.{Cipher, encrypt, decrypt}
use daigate.Credential.Payload.{
  Json, api_key_payload, oauth_material_payload, material_from_decrypted,
}
use daigate.Credential.Store.{
  StoreError, CredentialRow, Memory, nil_dereference, new_memory, row_at, bump_generation, disable,
  put_row, decrypt_row, get_row, get, put, put_api_key, put_oauth, refreshed, update_row,
  update_oauth, is_oauth,
}
use daigate.Credential.Store.Laws.{IsConsistent, change_row-IsConsistent, put_row-IsConsistent}

pub data Operation : Type 0 where
  put_api_key_op : Text → Text → Text → ℕ → Operation
  put_oauth_op : Text → Material → Text → ℕ → Operation
  update_oauth_op : Text → Material → Text → ℕ → Operation
  disable_op : ℕ → Text → ℕ → Operation
  bump_op : ℕ → Operation

abbrev fault_of : {A : Type 0} → Result StoreError A → Option StoreError
fault_of (ok a) = none
fault_of (err e) = some e

-- The error of an operation, if it has one, and the store after it.
abbrev pub noted : {A : Type 0} → Result StoreError A × Memory → Option StoreError × Memory
noted r = (fault_of r.0, r.1)

module _ (c : Cipher) (json : Json) where
  unfoldable pub perform : Operation → Memory → Option StoreError × Memory
  perform (put_api_key_op profile key nonce now) m =
      noted (put_api_key c json profile key nonce now m)
  perform (put_oauth_op profile mat nonce now) m = noted (put_oauth c json profile mat nonce now m)
  perform (update_oauth_op profile mat nonce now) m =
      noted (update_oauth c json profile mat nonce now m)
  perform (disable_op id cause now) m = noted (disable id cause now m)
  perform (bump_op now) m = (none, bump_generation now m)

  unfoldable pub run_op : Operation → Memory → Memory
  unfolding perform
  run_op op m = (perform op m).1

  unfoldable pub run_ops : List Operation → Memory → Memory
  unfolding run_op
  run_ops [] m = m
  run_ops (op ∷ ops) m = run_ops ops (run_op op m)

  -- What an operation does to a consistent store: nothing where it fails, and where it succeeds it
  -- leaves a consistent store of the next generation.
  abbrev pub IsStep : Memory → Option StoreError × Memory → Type 0
  IsStep m (some e, m') = m' ≡ m
  IsStep m (none, m') = (m'.gen ≡ m.gen + 1) × IsConsistent m'

  put-IsStep :
      (profile : Text) (kind : Kind) (identity plain nonce : Text) (now : ℕ) (m : Memory)
      → IsConsistent m
      → IsStep m (noted (put c json profile kind identity plain nonce now m))
  unfolding put put_row
  put-IsStep profile kind identity plain nonce now m h =
      elim (Result-cases (encrypt c m.key nonce plain)) [
        | inr (e, failed) ↦ rw (put, failed) refl
        | inl (enc, fine) ↦
            let row : CredentialRow = record {
              id = m.next_id + 1;
              profile = profile;
              kind = kind;
              identity = identity;
              disabled_cause = [];
              created_at = now;
              updated_at = now;
              data_enc = enc;
            } in
            let kept = put_row-IsConsistent m row now refl h in rw (put, fine) (refl, kept)
      ]

  update_row-IsStep :
      (profile : Text) (mat : Material) (nonce : Text) (now id : ℕ) (o : Option CredentialRow)
      (m : Memory)
      → IsConsistent m
      → IsStep m (noted (update_row c json profile mat nonce now id o m))
  unfolding update_row refreshed
  update_row-IsStep profile mat nonce now id none m h = refl
  update_row-IsStep profile mat nonce now id (some r) m h =
      let plain = json.marshal_oauth (oauth_material_payload mat) in
      elim (Bool-cases (is_oauth r.kind)) [
        | inr other ↦ rw (update_row, other) refl
        | inl fits ↦ elim (Result-cases (encrypt c m.key nonce plain)) [
          | inr (e, failed) ↦ rw (update_row, fits, failed) refl
          | inl (enc, fine) ↦
              let kept =
                change_row-IsConsistent m id now (refreshed mat enc now) (λ x. refl) (λ x. refl)
                  h in
              rw (update_row, fits, fine) (refl, kept)
        ]
      ]

  disable-IsStep :
      (id : ℕ) (cause : Text) (now : ℕ) (m : Memory)
      → IsConsistent m
      → IsStep m (noted (disable id cause now m))
  unfolding disable
  disable-IsStep id cause now m h = elim (Option-cases (row_at id m.rows)) [
    | inl missing ↦ rw (disable, missing) refl
    | inr (r, there) ↦
        let kept =
          change_row-IsConsistent m id now
            (λ x. record x { disabled_cause = cause; updated_at = now }) (λ x. refl) (λ x. refl)
            h in
        rw (disable, there) (refl, kept)
  ]

  -- An operation that fails leaves a consistent store as it is; one that succeeds moves it to the
  -- next generation and keeps it consistent.
  pub perform-IsStep : (op : Operation) (m : Memory) → IsConsistent m → IsStep m (perform op m)
  unfolding perform put_api_key put_oauth update_oauth bump_generation
  perform-IsStep (put_api_key_op profile key nonce now) m h =
      put-IsStep profile api_key [] (json.marshal_api (api_key_payload key)) nonce now m h
  perform-IsStep (put_oauth_op profile mat nonce now) m h =
      put-IsStep profile oauth mat.email (json.marshal_oauth (oauth_material_payload mat)) nonce now
        m h
  perform-IsStep (update_oauth_op profile mat nonce now) m h =
      elim (Option-cases (lookup profile m.by_prof)) [
        | inl missing ↦ rw (perform, update_oauth, missing) refl
        | inr (id, known) ↦
            rw (perform, update_oauth, known)
              (update_row-IsStep profile mat nonce now id (row_at id m.rows) m h)
      ]
  perform-IsStep (disable_op id cause now) m h = disable-IsStep id cause now m h
  perform-IsStep (bump_op now) m h = (refl, record { bounded = h.bounded; owned = h.owned })

  IsStep-IsConsistent :
      (m : Memory) (r : Option StoreError × Memory) → IsStep m r → IsConsistent m → IsConsistent r.1
  IsStep-IsConsistent m (some e, m') same h = subst IsConsistent (sym same) h
  IsStep-IsConsistent m (none, m') (next, kept) h = kept

  pub run_op-IsConsistent :
      (op : Operation) (m : Memory) → IsConsistent m → IsConsistent (run_op op m)
  unfolding run_op
  run_op-IsConsistent op m h = IsStep-IsConsistent m (perform op m) (perform-IsStep op m h) h

  pub run_ops-IsConsistent :
      (ops : List Operation) (m : Memory) → IsConsistent m → IsConsistent (run_ops ops m)
  unfolding run_ops
  run_ops-IsConsistent [] m h = h
  run_ops-IsConsistent (op ∷ ops) m h =
      run_ops-IsConsistent ops (run_op op m) (run_op-IsConsistent op m h)

  pub new_memory-IsConsistent : (key : Text) (now : ℕ) → IsConsistent (new_memory key now)
  unfolding new_memory row_at lookup
  new_memory-IsConsistent key now = record {
    bounded = λ id r there. cc;
    owned = λ profile id known. cc;
  }

  decrypt_row-ne-nil :
      (key : Text) (r : CredentialRow) → decrypt_row c json key r ≢ err nil_dereference
  unfolding decrypt_row
  decrypt_row-ne-nil key r e = elim (Result-cases (decrypt c key r.data_enc)) [
    | inr (e', failed) ↦ ground (arith, failed, e)
    | inl (raw, fine) ↦ elim (Result-cases (material_from_decrypted json r.profile r.kind raw)) [
      | inr (e', failed) ↦ ground (arith, fine, failed, e)
      | inl (mat, good) ↦ ground (arith, fine, good, e)
    ]
  ]

  -- Get never fails for a missing row: on every store that operations can make from a new one, a
  -- profile with an id has the row of that id.
  pub get-run_ops :
      (ops : List Operation) (key profile : Text) (now : ℕ)
      → get c json profile (run_ops ops (new_memory key now)) ≢ err nil_dereference
  unfolding get get_row
  get-run_ops ops key profile now panics =
      let m = run_ops ops (new_memory key now) in
      let h = run_ops-IsConsistent ops (new_memory key now) (new_memory-IsConsistent key now) in
      elim (Option-cases (lookup profile m.by_prof)) [
        | inl missing ↦ absurd (ground (arith, missing, panics))
        | inr (id, known) ↦
            let (r, there, own) = h.owned profile id known in
            ground (arith, known, there, decrypt_row-ne-nil m.key r, panics)
      ]
