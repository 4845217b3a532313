-- ===== src/Tests/Databases.antt =====
-- The credential store on SQLite, with the toy cipher and codec of the other tests.
use daigate.Prelude.{
  Text, List, [], ◌∷◌, codes, text_eq, true, none, some, ◌≡◌, refl, sym, ap, arith, ℕ, map, Permᴰ,
}
use daigate.Credential.Material.{Material, oauth}
use daigate.Credential.Seal.{encrypt}
use daigate.Credential.Payload.{empty_material}
use daigate.Credential.Store.{CredentialRow, get, list_summaries, snapshot_meta, is_oauth}
use daigate.Credential.Store.History.{
  Operation, put_api_key_op, put_oauth_op, update_oauth_op, disable_op, run_ops,
}
use daigate.Credential.Sqlite.{
  Sqlite, Legacy, new_sqlite, last_row, sqlite_put, sqlite_put_oauth, sqlite_get,
  sqlite_list_summaries, sqlite_snapshot_meta,
}
use daigate.Credential.Sqlite.View.{view}
use daigate.Credential.Sqlite.Refinement.{IsRegular}
use daigate.Credential.Sqlite.Runs.{run_sqlite_op, run_sqlite_ops, AreAlike}
use daigate.Credential.Sqlite.History.{get-run_ops-view}
use daigate.Tests.Credentials.{cipher, json, key, nonce}

abbrev pub legacy : Legacy cipher
legacy = record { type_of = λ t. some []; type_of-marshal = λ e. refl }

abbrev pub database : Sqlite
database = new_sqlite key 0

database-IsRegular : IsRegular cipher legacy json database
database-IsRegular = record { ascending = omega arith; sealed = tt }

abbrev east : Text
east = codes "east"

abbrev login : Material
login = record (empty_material east oauth) { access_token = codes "at"; email = codes "a@b" }

-- Each operation with the second clock reading of the database.
abbrev history : List (Operation × ℕ)
history =
    (put_oauth_op east login nonce 5, 6)
    ∷ (update_oauth_op east login nonce 6, 6)
    ∷ (disable_op 1 (codes "x") 7, 8)
    ∷ (put_api_key_op (codes "west") (codes "up") nonce 9, 10)
    ∷ []

abbrev operations : List Operation
operations = map (λ o. o.0) history

history-AreAlike : AreAlike cipher legacy json history database
unfolding run_sqlite_op sqlite_put_oauth sqlite_put encrypt last_row codes text_eq
history-AreAlike = (
  tt,
  (
    (refl, λ r e. ap (λ o. elim o [ none ↦ true | some x ↦ is_oauth x.kind ]) (sym e)),
    (tt, (tt, tt)),
  ),
)

-- Go may meet the second row first.
swapped : List CredentialRow → List CredentialRow
swapped [] = []
swapped (r ∷ []) = r ∷ []
swapped (r ∷ r' ∷ rs) = r' ∷ r ∷ rs

swapped-perm : (l : List CredentialRow) → Permᴰ (swapped l) l
unfolding swapped
swapped-perm [] = Permᴰ.nil
swapped-perm (r ∷ []) = Permᴰ.cons refl Permᴰ.nil
swapped-perm (r ∷ r' ∷ rs) = Permᴰ.swap refl refl

get-run_ops-view_example :
    (get cipher json east (run_ops cipher json operations (view 0 database))
      ≡ sqlite_get cipher legacy json east (run_sqlite_ops cipher legacy json history database))
    × Permᴰ
        (list_summaries swapped (run_ops cipher json operations (view 0 database)))
        (sqlite_list_summaries (run_sqlite_ops cipher legacy json history database))
    × ((snapshot_meta 8 (run_ops cipher json operations (view 0 database))).generation
        ≡ (sqlite_snapshot_meta 8 (run_sqlite_ops cipher legacy json history database)).generation)
get-run_ops-view_example =
    get-run_ops-view cipher legacy json history swapped 0 database east 8 swapped-perm
      database-IsRegular history-AreAlike
