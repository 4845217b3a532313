-- ===== src/Credential/Sqlite/Rows.antt =====
-- Lemmas on the rows that a query finds.
use daigate.Prelude.{
  Text, ℕ, List, [], ◌∷◌, is_empty, ◌==◌, Bool, true, false, none, some, ◌≡◌, refl, arith, All,
  Bool-cases, Option-cases, inl, inr, subst,
}
use daigate.Credential.Material.{Material}
use daigate.Credential.Store.{refreshed, is_oauth}
use daigate.Credential.Sqlite.{
  SqliteRow, last_row, update_where, has_provider, is_oauth_of, rewritten,
}
use daigate.Credential.Sqlite.View.{row_of}

module _ (P : SqliteRow → Type 0) where
  pub last_row-All :
      (p : SqliteRow → Bool) (rs : List SqliteRow) {r : SqliteRow}
      → All P rs
      → last_row p rs ≡ some r
      → P r
  unfolding last_row
  last_row-All p [] h e = cc
  last_row-All p (x ∷ rs) h e = elim (Option-cases (last_row p rs)) [
    | inr (y, found) ↦ last_row-All p rs h.1 (ground (arith, found, e))
    | inl missing ↦ elim (Bool-cases (p x)) [
      | inl fits ↦ let same : x ≡ _ = ground (arith, missing, fits, e) in subst P same h.0
      | inr unfit ↦ absurd (ground (arith, missing, unfit, e))
    ]
  ]

  pub All-update_where :
      (id : ℕ) (f : SqliteRow → SqliteRow) (rs : List SqliteRow)
      → ((r : SqliteRow) → P r → P (f r))
      → All P rs
      → All P (update_where id f rs)
  unfolding update_where
  All-update_where id f [] keep h = tt
  All-update_where id f (r ∷ rs) keep h = elim (Bool-cases (r.id == id)) [
    | inl e ↦ rw e (keep r h.0, All-update_where id f rs keep h.1)
    | inr e ↦ rw e (h.0, All-update_where id f rs keep h.1)
  ]

pub last_row-is_oauth_of-none :
    (profile : Text) (rs : List SqliteRow)
    → last_row (has_provider profile) rs ≡ none
    → last_row (is_oauth_of profile) rs ≡ none
unfolding last_row
last_row-is_oauth_of-none profile [] h = refl
last_row-is_oauth_of-none profile (x ∷ rs) h =
    elim (Option-cases (last_row (has_provider profile) rs)) [
      | inr (y, found) ↦ absurd (ground (arith, found, h))
      | inl missing ↦ ground (arith, missing, h, last_row-is_oauth_of-none profile rs missing)
    ]

-- Where the newest row of a profile is an oauth row, so is the row that UpdateOAuth picks.
pub last_row-is_oauth_of :
    (profile : Text) (rs : List SqliteRow) {r : SqliteRow}
    → last_row (has_provider profile) rs ≡ some r
    → is_oauth r.kind ≡ true
    → last_row (is_oauth_of profile) rs ≡ some r
unfolding last_row
last_row-is_oauth_of profile [] h k = cc
last_row-is_oauth_of profile (x ∷ rs) h k =
    elim (Option-cases (last_row (has_provider profile) rs)) [
      | inr (y, found) ↦
          let ih = last_row-is_oauth_of profile rs {r = y} found in ground (arith, found, h, k, ih)
      | inl missing ↦ ground (arith, missing, h, k, last_row-is_oauth_of-none profile rs missing)
    ]

pub rewritten-refreshed :
    (mat : Material) (enc : Text) (now : ℕ)
    → is_empty mat.email ≡ false
    → (r : SqliteRow) → row_of (rewritten mat enc now r) ≡ refreshed mat enc now (row_of r)
unfolding rewritten refreshed
rewritten-refreshed mat enc now email r = rw email refl
