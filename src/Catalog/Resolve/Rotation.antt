-- ===== src/Catalog/Resolve/Rotation.antt =====
-- The rotation of a round-robin pool: what one pick does, and what a full round of picks serves.
use daigate.Prelude.{
  Text, Map, ℕ, zero, suc, List, [], ◌∷◌, ◌++◌, ◌+◌, ◌-◌, ◌<◌, ◌≤◌, ◌%◌, ◌^◌, text_eq, text_eq_refl,
  codes, lookup, insert, lookup-insert, length, length-drop, get_elem?, get_elem?-total, drop, take,
  take-all, slot, slot_lem, append_assoc, slot-take-drop, some, Result, ok, err, ◌≡◌, refl, ap, sym,
  ◌∙◌, false, arith,
}
use mathlib.Core.Path.{ap₂}
use native.Mathlib.Nat.{mod-add-mod, mod_self, mod-lt}
use daigate.Catalog.Document.{PoolEntry}
use daigate.Catalog.Wires.{strategy_failover, strategy_round_robin}
use daigate.Catalog.Routing.{or_zero}
use daigate.Catalog.Resolve.{round_robin_index, take_entry, pick_entries}

abbrev pub counter : Map ℕ → Text → ℕ
counter rr key = or_zero 0 (lookup key rr)

abbrev pub picked {ℓ} : {A E : Type ℓ} → Result E (List A) → List A
picked (ok l) = l
picked (err e) = []

round_robin-ne-failover : text_eq strategy_round_robin strategy_failover ≡ false
unfolding text_eq codes
round_robin-ne-failover = refl

-- The entry that the counter points at.
IsDue : Map ℕ → Text → List PoolEntry → PoolEntry → Type 0
IsDue rr key pool e = get_elem? pool (counter rr key % length pool) ≡ some e

take_entry_due :
    (rr : Map ℕ) (key : Text) (idx i : ℕ) (pool : List PoolEntry) {e : PoolEntry}
    → idx < 2 ^ 63
    → get_elem? pool i ≡ some e
    → take_entry rr key idx pool (some i) ≡ (ok (e ∷ []), insert key (idx + 1) rr)
unfolding take_entry
take_entry_due rr key idx i pool h found =
    let small : (idx + 1) % 2 ^ 64 ≡ idx + 1 = omega arith in ground (arith, found, small)

round_robin_index_small : (idx n : ℕ) → idx < 2 ^ 63 → round_robin_index idx n ≡ some (idx % n)
unfolding round_robin_index
round_robin_index_small idx n h = ground arith

-- One pick takes the entry that is due and moves the counter by one.
pub pick_entries_round_robin :
    (rr : Map ℕ) (key : Text) (pool : List PoolEntry)
    → 0 < length pool
    → counter rr key < 2 ^ 63
    → (e : PoolEntry) × (get_elem? pool (counter rr key % length pool) ≡ some e)
      × (pick_entries rr key strategy_round_robin pool
          ≡ (ok (e ∷ []), insert key (counter rr key + 1) rr))
unfolding pick_entries
pick_entries_round_robin rr key [] n h = absurd (omega arith)
pick_entries_round_robin rr key (p ∷ ps) n h =
    let c = counter rr key in
    let pool = p ∷ ps in
    let (e, due, _) = get_elem?-total pool (c % length pool) (omega arith) in
    (
      e,
      due,
      rw
          (
            round_robin-ne-failover,
            text_eq_refl strategy_round_robin,
            round_robin_index_small c (length pool) h,
          )
          (take_entry_due rr key c (c % length pool) pool h due),
    )

-- The entries that `k` picks in a row serve.
pub served : ℕ → Map ℕ → Text → List PoolEntry → List PoolEntry
served zero rr key pool = []
served (suc k) rr key pool =
    let (r, rr') = pick_entries rr key strategy_round_robin pool in
    picked r ++ served k rr' key pool

-- The same by arithmetic alone, from a counter.
turns : ℕ → ℕ → List PoolEntry → List PoolEntry
turns zero c pool = []
turns (suc k) c pool = slot pool (c % length pool) ++ turns k (c + 1) pool

served-eq-turns :
    (k : ℕ) (rr : Map ℕ) (key : Text) (pool : List PoolEntry)
    → 0 < length pool
    → counter rr key + k ≤ 2 ^ 63
    → served k rr key pool ≡ turns k (counter rr key) pool
unfolding served turns
served-eq-turns zero rr key pool n h = refl
served-eq-turns (suc k) rr key pool n h =
    let (e, due, step) = pick_entries_round_robin rr key pool n (omega arith) in
    let c = counter rr key in
    let next : counter (insert key (c + 1) rr) key ≡ c + 1 =
      ground (arith, lookup-insert key key (c + 1) rr, text_eq_refl key) in
    rw (step, slot_lem (c % length pool) pool due)
      (ap (λ l. e ∷ l)
        (served-eq-turns k (insert key (c + 1) rr) key pool n (omega (arith, next))
          ∙ ap (λ d. turns k d pool) next))

turns-append :
    (a b c : ℕ) (pool : List PoolEntry)
    → turns (a + b) c pool ≡ turns a c pool ++ turns b (c + a) pool
unfolding turns
turns-append zero b c pool =
    let e : zero + b ≡ b = omega arith in let f : c + zero ≡ c = omega arith in rw (e, f)
turns-append (suc a) b c pool =
    let e : suc a + b ≡ suc (a + b) = omega arith in
    let f : c + suc a ≡ c + 1 + a = omega arith in
    rw (e, f)
      (ap (λ l. slot pool (c % length pool) ++ l) (turns-append a b (c + 1) pool)
        ∙ sym (append_assoc (slot pool (c % length pool)) _ _))

mod_next : (c n : ℕ) {i : ℕ} → c % n ≡ i → suc i < n → (c + 1) % n ≡ suc i
mod_next c n e h = grind arith

mod_wrap : (c n k : ℕ) {i : ℕ} → c % n ≡ i → i + k ≡ n → (c + k) % n ≡ 0
mod_wrap c n k e h =
    sym (mod-add-mod c n k) ∙ ap (λ t. (t + k) % n) e ∙ ap (λ t. t % n) h ∙ mod_self n

-- Until the end of the pool the picks run through it in order.
turns_in_order :
    (k i c : ℕ) (pool : List PoolEntry)
    → c % length pool ≡ i
    → i + k ≤ length pool
    → turns k c pool ≡ take k (drop i pool)
unfolding turns
turns_in_order zero i c pool e h = refl
turns_in_order (suc zero) i c pool e h = rw e (slot-take-drop i 0 pool (omega arith))
turns_in_order (suc (suc k)) i c pool e h =
    let next : (c + 1) % length pool ≡ suc i = mod_next c (length pool) e (omega arith) in
    rw e (
      ap (λ l. slot pool i ++ l) (turns_in_order (suc k) (suc i) (c + 1) pool next (omega arith))
      ∙ slot-take-drop i (suc k) pool (omega arith))

-- One pick for each member of the pool, in a row, serves the whole pool once: from the entry that
-- the counter points at to the end, then from the start. This holds while the counter stays below
-- 2^63, the largest value of Go's int.
pub served-full_round :
    (rr : Map ℕ) (key : Text) (pool : List PoolEntry)
    → 0 < length pool
    → counter rr key + length pool ≤ 2 ^ 63
    → served (length pool) rr key pool
      ≡ drop (counter rr key % length pool) pool ++ take (counter rr key % length pool) pool
served-full_round rr key pool n h =
    let c = counter rr key in
    let i = c % length pool in
    let below : i < length pool = mod-lt c n in
    let parts : length pool ≡ (length pool - i) + i = omega arith in
    let wrapped : (c + (length pool - i)) % length pool ≡ 0 =
      mod_wrap c (length pool) (length pool - i) refl (omega arith) in
    let first : turns (length pool - i) c pool ≡ drop i pool =
      turns_in_order (length pool - i) i c pool refl (omega arith)
      ∙ take-all (length pool - i) (drop i pool) (omega (arith, length-drop i pool)) in
    let second : turns i (c + (length pool - i)) pool ≡ take i pool =
      turns_in_order i 0 (c + (length pool - i)) pool wrapped (omega arith) in
    served-eq-turns (length pool) rr key pool n h
    ∙ ap (λ k. turns k c pool) parts
    ∙ turns-append (length pool - i) i c pool
    ∙ ap₂ (λ l m. l ++ m) first second
