-- ===== src/Credential/Sqlite/History.antt =====
-- Whole histories of operations on the two credential stores.
use daigate.Prelude.{
  Text, ℕ, List, [], ◌∷◌, codes, map, is_empty, if◌then◌else◌, not, Option, none, some, ◌≡◌, refl,
  sym, ◌∙◌, ap, subst, Permᴰ,
}
use daigate.Catalog.Routing.{or_zero}
use daigate.Credential.Seal.{Cipher}
use daigate.Credential.Payload.{Json, oauth_material_payload}
use daigate.Credential.Store.{
  CredentialRow, summary, non_empty, list_summaries, snapshot_meta, get, put,
}
use daigate.Credential.Sqlite.{
  SqliteRow, Sqlite, Legacy, scan_summary, sqlite_list_summaries, sqlite_get, identity_of,
  valid_text,
}
use daigate.Credential.Sqlite.View.{row_of, view}
use daigate.Credential.Sqlite.{
  sqlite_bump_generation, sqlite_put_api_key, sqlite_put_oauth, sqlite_snapshot_meta,
}
use daigate.Credential.Store.{put_api_key, put_oauth, bump_generation}
use daigate.Credential.Payload.{api_key_payload}
use daigate.Credential.Store.History.{
  Operation, put_api_key_op, put_oauth_op, update_oauth_op, disable_op, bump_op, run_op, run_ops,
}
use daigate.Credential.Material.{api_key, oauth}
use daigate.Credential.Sqlite.Refinement.{
  IsRegular, get-view, put-view, disable-view, update_oauth-view,
}
use daigate.Credential.Sqlite.Runs.{
  run_sqlite_op, run_sqlite_ops, IsAlike, AreAlike, run_sqlite_op-IsRegular,
}

-- A nullable text as the store in memory keeps it.
non_empty-or_zero : (t : Option Text) → non_empty (or_zero [] t) ≡ valid_text t
non_empty-or_zero none = refl
non_empty-or_zero (some t) = refl

status-or_zero :
    (t : Option Text)
    → (if not (is_empty (or_zero [] t)) then codes "disabled" else codes "active")
      ≡ elim (valid_text t) [ none ↦ codes "active" | some cause ↦ codes "disabled" ]
status-or_zero none = refl
status-or_zero (some []) = refl
status-or_zero (some (x ∷ t)) = refl

summary-row_of : (r : SqliteRow) → summary (row_of r) ≡ scan_summary r
unfolding summary scan_summary
summary-row_of r =
    rw
      (
        status-or_zero r.disabled_cause,
        non_empty-or_zero r.disabled_cause,
        non_empty-or_zero r.identity_key,
      )
      refl

map-perm : {A B : Type 0} (f : A → B) {l m : List A} → Permᴰ l m → Permᴰ (map f l) (map f m)
map-perm f Permᴰ.nil = Permᴰ.nil
map-perm f (Permᴰ.cons e h) = Permᴰ.cons (ap f e) (map-perm f h)
map-perm f (Permᴰ.swap e k) = Permᴰ.swap (ap f e) (ap f k)
map-perm f (Permᴰ.trans h k) = Permᴰ.trans (map-perm f h) (map-perm f k)

-- In whatever order Go meets the rows of its map, the summaries are those of the table.
list_summaries-view :
    (order : List CredentialRow → List CredentialRow) (at : ℕ) (s : Sqlite)
    → ((l : List CredentialRow) → Permᴰ (order l) l)
    → Permᴰ (list_summaries order (view at s)) (sqlite_list_summaries s)
unfolding list_summaries sqlite_list_summaries view
list_summaries-view order at s any_order =
    subst (Permᴰ (map summary (order (map row_of s.rows)))) (go s.rows)
      (map-perm summary (any_order (map row_of s.rows)))
  where
    go : (rs : List SqliteRow) → map summary (map row_of rs) ≡ map scan_summary rs
    go [] = refl
    go (r ∷ rs) = rw (summary-row_of r, go rs) refl

module _ (c : Cipher) (legacy : Legacy c) (json : Json) where
  or_zero-identity_of : (email : Text) → or_zero [] (identity_of email) ≡ email
  or_zero-identity_of [] = refl
  or_zero-identity_of (x ∷ email) = refl

  -- One operation on the database is the operation on its view.
  run_op-view :
      (op : Operation × ℕ) (at : ℕ) (s : Sqlite)
      → IsRegular c legacy json s
      → IsAlike c legacy json op s
      → (at' : ℕ) × (run_op c json op.0 (view at s) ≡ view at' (run_sqlite_op c legacy json op s))
  unfolding run_op run_sqlite_op put_api_key put_oauth sqlite_put_api_key sqlite_put_oauth
  run_op-view (put_api_key_op profile key nonce now, later) at s h a =
      let (at', same) =
        put-view c legacy json profile api_key none (json.marshal_api (api_key_payload key)) nonce
          now later at s in
      (at', ap (λ x. x.1) same)
  run_op-view (put_oauth_op profile mat nonce now, later) at s h a =
      let plain = json.marshal_oauth (oauth_material_payload mat) in
      let (at', same) =
        put-view c legacy json profile oauth (identity_of mat.email) plain nonce now later at s in
      (
        at',
        ap (λ e. (put c json profile oauth e plain nonce now (view at s)).1)
              (sym (or_zero-identity_of mat.email))
            ∙ ap (λ x. x.1) same,
      )
  run_op-view (update_oauth_op profile mat nonce now, later) at s h a =
      let (at', same) =
        update_oauth-view c legacy json profile mat nonce now later at s h a.0 a.1 in
      (at', ap (λ x. x.1) same)
  run_op-view (disable_op id cause now, later) at s h a =
      let (at', same) = disable-view c legacy json id cause now later at s h in
      (at', ap (λ x. x.1) same)
  run_op-view (bump_op now, later) at s h a =
      (now, unfold view bump_generation sqlite_bump_generation in refl)

  run_ops-view :
      (ops : List (Operation × ℕ)) (at : ℕ) (s : Sqlite)
      → IsRegular c legacy json s
      → AreAlike c legacy json ops s
      → (at' : ℕ) × (run_ops c json (map (λ o. o.0) ops) (view at s)
          ≡ view at' (run_sqlite_ops c legacy json ops s))
        × IsRegular c legacy json (run_sqlite_ops c legacy json ops s)
  unfolding run_ops run_sqlite_ops
  run_ops-view [] at s h a = (at, refl, h)
  run_ops-view (op ∷ ops) at s h a =
      let (next, step) = run_op-view op at s h a.0 in
      let (last, same, kept) =
        run_ops-view ops next (run_sqlite_op c legacy json op s)
          (run_sqlite_op-IsRegular c legacy json op s h) a.1 in
      (last, ap (run_ops c json (map (λ o. o.0) ops)) step ∙ same, kept)

  -- The two credential stores cannot be told apart by their readers, but for the time of the last
  -- change: after the same history on a database without plaintext rows of older programs and on the
  -- store in memory with the same content, Get gives the same for every profile, ListSummaries gives
  -- the same summaries, in memory in any order that an iteration over a Go map may have, and
  -- SnapshotMeta gives the same generation. Each update of the history carries an email, and finds an oauth row as the newest of
  -- its profile, if the profile has a row.
  pub get-run_ops-view :
      (ops : List (Operation × ℕ)) (order : List CredentialRow → List CredentialRow) (at : ℕ)
      (s : Sqlite) (profile : Text) (now : ℕ)
      → ((l : List CredentialRow) → Permᴰ (order l) l)
      → IsRegular c legacy json s
      → AreAlike c legacy json ops s
      → (get c json profile (run_ops c json (map (λ o. o.0) ops) (view at s))
          ≡ sqlite_get c legacy json profile (run_sqlite_ops c legacy json ops s))
        × Permᴰ
            (list_summaries order (run_ops c json (map (λ o. o.0) ops) (view at s)))
            (sqlite_list_summaries (run_sqlite_ops c legacy json ops s))
        × ((snapshot_meta now (run_ops c json (map (λ o. o.0) ops) (view at s))).generation
            ≡ (sqlite_snapshot_meta now (run_sqlite_ops c legacy json ops s)).generation)
  unfolding snapshot_meta sqlite_snapshot_meta view
  get-run_ops-view ops order at s profile now any_order h a =
      let (at', same, kept) = run_ops-view ops at s h a in
      let s' = run_sqlite_ops c legacy json ops s in
      (
        ap (get c json profile) same ∙ get-view c legacy json profile at' s' kept,
        subst (λ m. Permᴰ (list_summaries order m) (sqlite_list_summaries s')) (sym same)
            (list_summaries-view order at' s' any_order),
        ap (λ m. m.gen) same,
      )
