-- ===== src/Admin/Auth/Laws.antt =====
-- What a request has that passes Require.
use daigate.Prelude.{
  ℕ, List, ◌++◌, Option, none, ◌||◌, map, sym, trim_space, append_assoc, text_eq_refl, ◌∙◌, Text,
  [], ◌∷◌, ◌&&◌, text_eq, true, false, some, ok, ◌≡◌, refl, ap, Bool-cases, Option-cases, inl, inr,
  arith, Memᴰ,
}
use daigate.Http.{Header}
use daigate.Config.{AdminConfig, Getenv, admin_plane_enabled}
use daigate.Catalog.Document.{is_nil}
use daigate.Keyring.Argonhash.{Crypto, argon_seal, argon_verify, argon_verify-seal}
use daigate.Catalog.Routing.{or_zero}
use daigate.Admin.Auth.{
  TokenEntry, TokenRow, TokenStore, Middleware, role_admin, row_entry, load_db_tokens, insert_token,
  role_provision, is_denied, bearer, role_for, require, entry_of, load_middleware,
}

module _ (crypto : Crypto) where
  -- The role of a token is that of an entry whose hash the token passes.
  pub role_for_sound :
      (entries : Middleware) (tok : Text) {role : Text}
      → role_for crypto entries tok ≡ some role
      → (e : TokenEntry) × Memᴰ e entries
        × (e.role ≡ role)
        × (argon_verify crypto tok e.sealed ≡ true)
  unfolding role_for
  role_for_sound [] tok h = cc
  role_for_sound (e ∷ entries) tok {role} h = elim (Bool-cases (argon_verify crypto tok e.sealed)) [
    | inl passes ↦ (e, Memᴰ.head refl, ground (arith, passes, h), passes)
    | inr fails ↦
        let (x, mem, same, passes) =
          role_for_sound entries tok {role = role} (ground (arith, fails, h)) in
        (x, Memᴰ.tail mem, same, passes)
  ]

  -- A request that passes carries a token that an entry of its role accepts, and its path is not
  -- denied to that role.
  pub require_sound :
      (entries : Middleware) (headers : Header) (path : Text) {role : Text}
      → require crypto entries headers path ≡ ok role
      → ((tok : Text) × (bearer headers ≡ some tok) × (role_for crypto entries tok ≡ some role))
        × ((text_eq role role_provision && is_denied path) ≡ false)
  unfolding require
  require_sound entries headers path {role} h = elim (Option-cases (bearer headers)) [
    | inl missing ↦ absurd (ground (arith, missing, h))
    | inr (tok, given) ↦ elim (Option-cases (role_for crypto entries tok)) [
      | inl unknown ↦ absurd (ground (arith, given, unknown, h))
      | inr (r, known) ↦ elim (Bool-cases (text_eq r role_provision && is_denied path)) [
        | inl denied ↦ absurd (ground (arith, given, known, denied, h))
        | inr open_path ↦
            let same : r ≡ role = ground (arith, given, known, open_path, h) in
            ((tok, given, rw (known) (ap some same)), rw (← same) open_path)
      ]
    ]
  ]

module _ (crypto : Crypto) where
  role_for-append :
      (entries others : Middleware) (tok : Text)
      → role_for crypto (entries ++ others) tok ≡ (elim (role_for crypto entries tok) [
        | some role ↦ some role
        | none ↦ role_for crypto others tok
      ])
  unfolding role_for
  role_for-append [] others tok = refl
  role_for-append (x ∷ entries) others tok = elim (Bool-cases (argon_verify crypto tok x.sealed)) [
    | inl passes ↦ rw (role_for, passes) refl
    | inr fails ↦ rw (role_for, fails) (role_for-append entries others tok)
  ]

  role_for-append-some :
      (entries others : Middleware) (tok role : Text)
      → role_for crypto others tok ≡ some role
      → role_for crypto (entries ++ others) tok ≡ some (or_zero role (role_for crypto entries tok))
  role_for-append-some entries others tok role known =
      role_for-append entries others tok ∙ chosen (role_for crypto entries tok)
    where
      chosen :
          (o : Option Text)
          → (elim o [ some r ↦ some r | none ↦ role_for crypto others tok ]) ≡ some (or_zero role o)
      chosen none = known
      chosen (some r) = refl

  is_nil-append : (xs ys : Middleware) → is_nil ys ≡ false → is_nil (xs ++ ys) ≡ false
  is_nil-append [] ys h = h
  is_nil-append (x ∷ xs) ys h = refl

  load_db_tokens-insert :
      (name role plain salt : Text) (now : ℕ) (s : TokenStore)
      → (text_eq role role_admin || text_eq role role_provision) ≡ true
      → load_db_tokens (insert_token crypto name role plain salt now s).1
        ≡ load_db_tokens s ++ record { role = role; sealed = argon_seal crypto salt plain } ∷ []
  unfolding load_db_tokens insert_token
  load_db_tokens-insert name role plain salt now s admitted =
      rw (load_db_tokens, insert_token, admitted) (appended _ s.rows)
    where
      appended :
          (row : TokenRow) (rows : List TokenRow)
          → map row_entry (rows ++ row ∷ []) ≡ map row_entry rows ++ row_entry row ∷ []
      appended row [] = refl
      appended row (x ∷ rows) = ap (λ l. row_entry x ∷ l) (appended row rows)

  role_for-single :
      (role plain salt : Text)
      → role_for crypto (record { role = role; sealed = argon_seal crypto salt plain } ∷ []) plain
        ≡ some role
  unfolding role_for
  role_for-single role plain salt =
      let sealed : argon_verify crypto plain (argon_seal crypto salt plain) ≡ true =
        argon_verify-seal crypto salt plain plain ∙ text_eq_refl _ in
      rw (role_for, sealed) refl

  -- The entries that Load makes of the two environment variables.
  abbrev pub env_entries : Getenv → AdminConfig → Text → Text → Middleware
  env_entries getenv admin salt salt' =
      entry_of crypto role_admin (trim_space (getenv admin.tokens.admin_env)) salt
      ++ entry_of crypto role_provision (trim_space (getenv admin.tokens.provision_env)) salt'

  -- A token that was inserted under one of the two roles is known after the next start of an enabled
  -- plane, which succeeds: it has the role of an environment token that it passes for, or else that
  -- of the first earlier row that accepts it, or else its own.
  pub role_for-insert_token :
      (getenv : Getenv) (admin : AdminConfig) (name role plain salt salt₁ salt₂ : Text) (now : ℕ)
      (s : TokenStore)
      → admin_plane_enabled admin ≡ true
      → (text_eq role role_admin || text_eq role role_provision) ≡ true
      → (entries : Middleware) × (load_middleware crypto getenv admin
            (some (insert_token crypto name role plain salt now s).1)
            salt₁
            salt₂
          ≡ ok (some entries))
        × (role_for crypto entries plain
            ≡ some (
                or_zero
                  (or_zero role (role_for crypto (load_db_tokens s) plain))
                  (role_for crypto (env_entries getenv admin salt₁ salt₂) plain)))
  unfolding load_middleware
  role_for-insert_token getenv admin name role plain salt salt₁ salt₂ now s enabled admitted =
      let entry : TokenEntry = record { role = role; sealed = argon_seal crypto salt plain } in
      let a = entry_of crypto role_admin (trim_space (getenv admin.tokens.admin_env)) salt₁ in
      let p =
        entry_of crypto role_provision (trim_space (getenv admin.tokens.provision_env)) salt₂ in
      let rows = load_db_tokens s ++ entry ∷ [] in
      let stored = load_db_tokens-insert name role plain salt now s admitted in
      let given =
        is_nil-append a (p ++ rows)
          (is_nil-append p rows (is_nil-append (load_db_tokens s) (entry ∷ []) refl)) in
      (
        a ++ (p ++ rows),
        rw (load_middleware, enabled, stored, given) refl,
        ap (λ l. role_for crypto l plain) (sym (append_assoc a p rows))
            ∙ role_for-append-some (a ++ p) rows plain _ (
                role_for-append-some (load_db_tokens s) (entry ∷ []) plain role
                  (role_for-single role plain salt)),
      )
