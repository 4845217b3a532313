-- ===== src/Keyring/MemoryStore/History.antt =====
-- Whole histories of operations on the two key stores.
use daigate.Prelude.{
  Text, ℕ, List, [], ◌∷◌, text_eq, ◌||◌, true, Option, ok, ◌≡◌, refl, sym, ap, ◌∙◌, All, subst,
}
use daigate.Keyring.Argonhash.{Crypto}
use daigate.Keyring.Keys.{kind_static, kind_issued, expiry}
use daigate.Keyring.SqlStore.{sql_verify}
use daigate.Keyring.SqlStore.Laws.{IsSequenced}
use daigate.Keyring.SqlStore.History.{KeyOp, create, revoke, run_op, run_ops, run_op-IsSequenced}
use daigate.Keyring.MemoryStore.{MemoryStore, mem_create, mem_revoke, mem_verify}
use daigate.Keyring.MemoryStore.Refinement.{
  table_of, mem_verify-table_of, mem_create-table_of, mem_revoke-table_of,
}

-- A creation that neither store refuses, or any revocation. A creation without the ttl that it needs
-- is refused by both, but the store in memory has counted its id by then.
abbrev pub IsValidOp : KeyOp → Type 0
IsValidOp (create call) =
    ((text_eq call.kind kind_static || text_eq call.kind kind_issued) ≡ true)
    × (exp : Option ℕ) × (expiry call ≡ ok exp)
IsValidOp (revoke id) = Unit

module _ (crypto : Crypto) where
  unfoldable pub run_mem_op : KeyOp → MemoryStore → MemoryStore
  run_mem_op (create call) m = (mem_create crypto call m).1
  run_mem_op (revoke id) m = (mem_revoke id m).1

  unfoldable pub run_mem_ops : List KeyOp → MemoryStore → MemoryStore
  unfolding run_mem_op
  run_mem_ops [] m = m
  run_mem_ops (op ∷ ops) m = run_mem_ops ops (run_mem_op op m)

  run_op-table_of :
      (op : KeyOp) (m : MemoryStore)
      → IsSequenced (table_of m)
      → IsValidOp op
      → run_op crypto op (table_of m) ≡ table_of (run_mem_op op m)
  unfolding run_op run_mem_op
  run_op-table_of (create call) m w k =
      let (kind, exp, fine) = k in ap (λ r. r.1) (mem_create-table_of crypto call m exp w kind fine)
  run_op-table_of (revoke id) m w k = ap (λ r. r.1) (mem_revoke-table_of m id w)

  run_ops-table_of :
      (ops : List KeyOp) (m : MemoryStore)
      → IsSequenced (table_of m)
      → All IsValidOp ops
      → (run_ops crypto ops (table_of m) ≡ table_of (run_mem_ops ops m))
        × IsSequenced (table_of (run_mem_ops ops m))
  unfolding run_ops run_mem_ops
  run_ops-table_of [] m w k = (refl, w)
  run_ops-table_of (op ∷ ops) m w k =
      let step = run_op-table_of op m w k.0 in
      let kept = subst IsSequenced step (run_op-IsSequenced crypto op (table_of m) w) in
      let (same, last) = run_ops-table_of ops (run_mem_op op m) kept k.1 in
      (ap (run_ops crypto ops) step ∙ same, last)

  -- The two key stores cannot be told apart by Verify: after the same history of creations, of keys of
  -- an admitted kind and with the ttl they need, and revocations, the store in memory answers every
  -- text as the table does.
  pub mem_verify-run_mem_ops :
      (ops : List KeyOp) (m : MemoryStore) (now : ℕ) (secret : Text)
      → IsSequenced (table_of m)
      → All IsValidOp ops
      → mem_verify crypto (run_mem_ops ops m) now secret
        ≡ sql_verify crypto (run_ops crypto ops (table_of m)) now secret
  mem_verify-run_mem_ops ops m now secret w k =
      let (same, kept) = run_ops-table_of ops m w k in
      mem_verify-table_of crypto (run_mem_ops ops m) now secret kept
      ∙ ap (λ s. sql_verify crypto s now secret) (sym same)
