-- ===== src/Credential/Store/Laws.antt =====
-- The invariant of the credential store in memory, and the lemmas on its rows.
use daigate.Prelude.{
  Text, ℕ, ◌+◌, ◌≤◌, List, [], ◌∷◌, ◌++◌, text_eq, text_eq_iff, ◌==◌, ==_iff, lookup, lookup-insert,
  if◌then◌else◌, Option, none, some, Option-cases, Bool-cases, ◌≡◌, inl, inr, refl, ◌∙◌, arith,
  subst,
}
use daigate.Credential.Store.{CredentialRow, Memory, row_at, change_row, put_row}

-- Ids are not beyond the counter, and the row of a profile is there and is of that profile.
pub record IsConsistent (m : Memory) : Type 0 where
  pub bounded : (id : ℕ) (r : CredentialRow) → row_at id m.rows ≡ some r → id ≤ m.next_id
  pub owned :
      (profile : Text) (id : ℕ)
      → lookup profile m.by_prof ≡ some id
      → (r : CredentialRow) × (row_at id m.rows ≡ some r) × (r.profile ≡ profile)

abbrev pub or_last : ℕ → CredentialRow → Option CredentialRow → Option CredentialRow
or_last id r none = if r.id == id then some r else none
or_last id r (some x) = some x

pub row_at-append :
    (id : ℕ) (rs : List CredentialRow) (r : CredentialRow)
    → row_at id (rs ++ r ∷ []) ≡ or_last id r (row_at id rs)
unfolding row_at
row_at-append id [] r = refl
row_at-append id (x ∷ rs) r = elim (Bool-cases (x.id == id)) [
  | inl e ↦ ground (arith, e)
  | inr e ↦ ground (arith, e, row_at-append id rs r)
]

abbrev pub changed : (CredentialRow → CredentialRow) → Option CredentialRow → Option CredentialRow
changed f none = none
changed f (some r) = some (f r)

pub row_at-change_row :
    (id j : ℕ) (f : CredentialRow → CredentialRow) (rs : List CredentialRow)
    → ((r : CredentialRow) → (f r).id ≡ r.id)
    → row_at j (change_row id f rs) ≡ (if id == j then changed f (row_at j rs) else row_at j rs)
unfolding row_at change_row
row_at-change_row id j f [] h = ground arith
row_at-change_row id j f (r ∷ rs) h = ground (arith, h r, row_at-change_row id j f rs h)

pub change_row-IsConsistent :
    (m : Memory) (id now : ℕ) (f : CredentialRow → CredentialRow)
    → ((r : CredentialRow) → (f r).id ≡ r.id)
    → ((r : CredentialRow) → (f r).profile ≡ r.profile)
    → IsConsistent m
    → IsConsistent (record m { rows = change_row id f m.rows; gen = m.gen + 1; gen_at = now })
change_row-IsConsistent m id now f same_id same_profile h = record {
  bounded = λ j r found. elim (Option-cases (row_at j m.rows)) [
    | inl missing ↦ absurd (ground (arith, row_at-change_row id j f m.rows same_id, missing, found))
    | inr (r', there) ↦ h.bounded j r' there
  ];
  owned = λ profile j l.
      let (r, there, own) = h.owned profile j l in
      elim (Bool-cases (id == j)) [
        | inl this ↦ (
          f r,
          row_at-change_row id j f m.rows same_id ∙ rw (this, there) refl,
          same_profile r ∙ own,
        )
        | inr other ↦ (r, row_at-change_row id j f m.rows same_id ∙ rw (other, there) refl, own)
      ];
}

row_at-fresh : (m : Memory) (id : ℕ) → IsConsistent m → id ≡ m.next_id + 1 → row_at id m.rows ≡ none
row_at-fresh m id h e = elim (Option-cases (row_at id m.rows)) [
  | inl missing ↦ missing
  | inr (r, there) ↦ absurd (omega (arith, e, h.bounded id r there))
]

pub row_at-put :
    (m : Memory) (row : CredentialRow)
    → IsConsistent m
    → row.id ≡ m.next_id + 1
    → row_at row.id (m.rows ++ row ∷ []) ≡ some row
row_at-put m row h e =
    row_at-append row.id m.rows row
    ∙ rw (row_at-fresh m row.id h e, (==_iff row.id row.id).1 refl) refl

pub put_row-IsConsistent :
    (m : Memory) (row : CredentialRow) (now : ℕ)
    → row.id ≡ m.next_id + 1
    → IsConsistent m
    → IsConsistent (put_row row now m)
unfolding put_row
put_row-IsConsistent m row now e h = record {
  bounded = λ j r found. elim (Option-cases (row_at j m.rows)) [
    | inr (r', there) ↦ omega (arith, e, h.bounded j r' there)
    | inl missing ↦ elim (Bool-cases (row.id == j)) [
      | inl this ↦ omega (arith, (==_iff row.id j).0 this)
      | inr other ↦ absurd (ground (arith, row_at-append j m.rows row, missing, other, found))
    ]
  ];
  owned = λ profile j l. elim (Bool-cases (text_eq row.profile profile)) [
    | inl this ↦
        let same : row.id ≡ j =
          ground (arith, lookup-insert row.profile profile row.id m.by_prof, this, l) in
        (
          row,
          subst (λ k. row_at k (m.rows ++ row ∷ []) ≡ some row) same (row_at-put m row h e),
          (text_eq_iff row.profile profile).0 this,
        )
    | inr other ↦
        let old : lookup profile m.by_prof ≡ some j =
          ground (arith, lookup-insert row.profile profile row.id m.by_prof, other, l) in
        let (r, there, own) = h.owned profile j old in
        (r, row_at-append j m.rows row ∙ rw there refl, own)
  ];
}
