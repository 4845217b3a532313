-- ===== src/Credential/Sqlite/View.antt =====
-- The store in memory that a database stands for, and the lemmas on its rows and profiles.
use daigate.Prelude.{
  Text, Map, ℕ, ◌+◌, ◌≤◌, ◌<◌, List, [], ◌∷◌, ◌++◌, map, ◌==◌, ==_iff, any, lookup, insert,
  lookup-insert, Bool, true, false, Option, none, some, ◌≡◌, refl, ◌∙◌, ap, arith, Bool-cases,
  Option-cases, inl, inr,
}
use daigate.Catalog.Routing.{or_zero}
use daigate.Credential.Store.{CredentialRow, Memory, row_at, change_row}
use daigate.Credential.Sqlite.{SqliteRow, Sqlite, last_row, update_where, has_id, has_provider}

abbrev pub row_of : SqliteRow → CredentialRow
row_of r = record {
  id = r.id;
  profile = r.provider;
  kind = r.kind;
  identity = or_zero [] r.identity_key;
  disabled_cause = or_zero [] r.disabled_cause;
  created_at = r.created_at;
  updated_at = r.updated_at;
  data_enc = r.blob;
}

-- The newest id of each profile, over the profiles of earlier rows.
unfoldable pub profiles_of : List SqliteRow → Map ℕ → Map ℕ
profiles_of [] m = m
profiles_of (r ∷ rs) m = profiles_of rs (insert r.provider r.id m)

-- The store in memory keeps the clock reading of its own last change, here `at`.
unfoldable pub view : ℕ → Sqlite → Memory
view at s = record {
  key = s.key;
  rows = map row_of s.rows;
  by_prof = profiles_of s.rows [];
  next_id = s.seq;
  gen = s.generation;
  gen_at = at;
}

-- The ids rise strictly from above `lo` and stay at most `hi`.
abbrev pub IsAscending : ℕ → List SqliteRow → ℕ → Type 0
IsAscending lo [] hi = lo ≤ hi
IsAscending lo (r ∷ rs) hi = (lo < r.id) × IsAscending r.id rs hi

pub IsAscending-append :
    (lo : ℕ) (rs : List SqliteRow) (hi : ℕ) (r : SqliteRow)
    → IsAscending lo rs hi
    → r.id ≡ hi + 1
    → IsAscending lo (rs ++ r ∷ []) (hi + 1)
IsAscending-append lo [] hi r h e = (omega arith, omega arith)
IsAscending-append lo (x ∷ rs) hi r h e = (h.0, IsAscending-append x.id rs hi r h.1 e)

pub IsAscending-update_where :
    (lo id : ℕ) (f : SqliteRow → SqliteRow) (rs : List SqliteRow) (hi : ℕ)
    → ((r : SqliteRow) → (f r).id ≡ r.id)
    → IsAscending lo rs hi
    → IsAscending lo (update_where id f rs) hi
unfolding update_where
IsAscending-update_where lo id f [] hi same h = h
IsAscending-update_where lo id f (r ∷ rs) hi same h = elim (Bool-cases (r.id == id)) [
  | inl e ↦ rw (e, same r) (h.0, IsAscending-update_where r.id id f rs hi same h.1)
  | inr e ↦ rw e (h.0, IsAscending-update_where r.id id f rs hi same h.1)
]

pub map-row_of_append :
    (rs : List SqliteRow) (r : SqliteRow)
    → map row_of (rs ++ r ∷ []) ≡ map row_of rs ++ row_of r ∷ []
map-row_of_append [] r = refl
map-row_of_append (x ∷ rs) r = ap (λ l. row_of x ∷ l) (map-row_of_append rs r)

pub profiles_of-append :
    (rs : List SqliteRow) (r : SqliteRow) (m : Map ℕ)
    → profiles_of (rs ++ r ∷ []) m ≡ insert r.provider r.id (profiles_of rs m)
unfolding profiles_of
profiles_of-append [] r m = refl
profiles_of-append (x ∷ rs) r m = profiles_of-append rs r (insert x.provider x.id m)

pub profiles_of-update_where :
    (id : ℕ) (f : SqliteRow → SqliteRow) (rs : List SqliteRow) (m : Map ℕ)
    → ((r : SqliteRow) → (f r).id ≡ r.id)
    → ((r : SqliteRow) → (f r).provider ≡ r.provider)
    → profiles_of (update_where id f rs) m ≡ profiles_of rs m
unfolding profiles_of update_where
profiles_of-update_where id f [] m same own = refl
profiles_of-update_where id f (r ∷ rs) m same own = elim (Bool-cases (r.id == id)) [
  | inl e ↦ rw (e, same r, own r) (profiles_of-update_where id f rs _ same own)
  | inr e ↦ rw e (profiles_of-update_where id f rs _ same own)
]

row_at-below :
    (lo : ℕ) (rs : List SqliteRow) (hi id : ℕ)
    → IsAscending lo rs hi
    → id ≤ lo
    → row_at id (map row_of rs) ≡ none
unfolding row_at
row_at-below lo [] hi id h k = refl
row_at-below lo (r ∷ rs) hi id h k =
    ground (arith, row_at-below r.id rs hi id h.1 (omega (arith, h.0)))

update_where-below :
    (lo : ℕ) (rs : List SqliteRow) (hi id : ℕ) (f : SqliteRow → SqliteRow)
    → IsAscending lo rs hi
    → id ≤ lo
    → update_where id f rs ≡ rs
unfolding update_where
update_where-below lo [] hi id f h k = refl
update_where-below lo (r ∷ rs) hi id f h k =
    ground (arith, update_where-below r.id rs hi id f h.1 (omega (arith, h.0)))

-- A change by id, on the rows and on the view of the rows.
pub map-update_where :
    (lo : ℕ) (rs : List SqliteRow) (hi id : ℕ) (f : SqliteRow → SqliteRow)
    (g : CredentialRow → CredentialRow)
    → IsAscending lo rs hi
    → ((r : SqliteRow) → row_of (f r) ≡ g (row_of r))
    → map row_of (update_where id f rs) ≡ change_row id g (map row_of rs)
unfolding update_where change_row
map-update_where lo [] hi id f g h same = refl
map-update_where lo (r ∷ rs) hi id f g h same = elim (Bool-cases (r.id == id)) [
  | inl e ↦
      let rest = update_where-below r.id rs hi id f h.1 (omega (arith, (==_iff r.id id).0 e)) in
      rw (e, rest) (ap (λ x. x ∷ map row_of rs) (same r))
  | inr e ↦ rw e (ap (λ l. row_of r ∷ l) (map-update_where r.id rs hi id f g h.1 same))
]

abbrev pub row_of? : Option SqliteRow → Option CredentialRow
row_of? none = none
row_of? (some r) = some (row_of r)

-- A row is found by its id exactly if the table has one.
pub row_at-any :
    (id : ℕ) (rs : List SqliteRow)
    → (any (has_id id) rs ≡ true)
    → (r : CredentialRow) × (row_at id (map row_of rs) ≡ some r)
unfolding row_at
row_at-any id [] h = cc
row_at-any id (r ∷ rs) h = elim (Bool-cases (r.id == id)) [
  | inl e ↦ (row_of r, ground (arith, e))
  | inr e ↦
      let (x, found) = row_at-any id rs (ground (arith, e, h)) in (x, ground (arith, e, found))
]

pub row_at-not_any :
    (id : ℕ) (rs : List SqliteRow) → any (has_id id) rs ≡ false → row_at id (map row_of rs) ≡ none
unfolding row_at
row_at-not_any id [] h = refl
row_at-not_any id (r ∷ rs) h = ground (arith, row_at-not_any id rs)

pub update_where-not_any :
    (id : ℕ) (f : SqliteRow → SqliteRow) (rs : List SqliteRow)
    → any (has_id id) rs ≡ false
    → update_where id f rs ≡ rs
unfolding update_where
update_where-not_any id f [] h = refl
update_where-not_any id f (r ∷ rs) h = ground (arith, update_where-not_any id f rs)

abbrev pub id_or : Option ℕ → Option SqliteRow → Option ℕ
id_or o none = o
id_or o (some r) = some r.id

-- The profile's id in the view is that of the last row of the provider.
pub lookup-profiles_of :
    (profile : Text) (rs : List SqliteRow) (m : Map ℕ)
    → lookup profile (profiles_of rs m)
      ≡ id_or (lookup profile m) (last_row (has_provider profile) rs)
unfolding profiles_of last_row
lookup-profiles_of profile [] m = refl
lookup-profiles_of profile (r ∷ rs) m =
    let ih = lookup-profiles_of profile rs (insert r.provider r.id m) in
    elim (Option-cases (last_row (has_provider profile) rs)) [
      | inr (x, e) ↦ ground (arith, e, ih)
      | inl e ↦ ground (arith, e, ih, lookup-insert r.provider profile r.id m)
    ]

-- The last row of a kind is the row of its id, and it is of that kind.
pub row_at-last_row :
    (p : SqliteRow → Bool) (lo : ℕ) (rs : List SqliteRow) (hi : ℕ) {r : SqliteRow}
    → IsAscending lo rs hi
    → last_row p rs ≡ some r
    → (row_at r.id (map row_of rs) ≡ some (row_of r))
      × (p r ≡ true)
      × (lo < r.id)
      × (any (has_id r.id) rs ≡ true)
unfolding row_at last_row
row_at-last_row p lo [] hi h e = cc
row_at-last_row p lo (x ∷ rs) hi {r} h e = elim (Option-cases (last_row p rs)) [
  | inr (y, found) ↦
      let same : y ≡ r = ground (arith, found, e) in
      let (at, fits, above, there) =
        row_at-last_row p x.id rs hi {r = r} h.1 (found ∙ ap some same) in
      (ground (arith, at, above), fits, omega (arith, h.0, above), ground (arith, there))
  | inl missing ↦ elim (Bool-cases (p x)) [
    | inl fits ↦
        let same : x ≡ r = ground (arith, missing, fits, e) in
        (
          ground (arith, same),
          ground (arith, same, fits),
          ground (arith, same, h.0),
          ground (arith, same),
        )
    | inr unfit ↦ absurd (ground (arith, missing, unfit, e))
  ]
]
