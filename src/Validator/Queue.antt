-- ===== src/Validator/Queue.antt =====
-- The unbonding queue as a bag of entries: the scan finds the first entry of a validator, and the
-- removal by swap and pop takes out that entry and no other.
use call_node.Prelude.{
  ℕ, zero, suc, ◌+◌, ◌-◌, ◌≤◌, ◌<◌, ◌≡◌, refl, ◌≢◌, ◌⊎◌, inl, inr, ◌&&◌, not, ltb, Option, none,
  some, Bool-cases, ==_iff, arith, ap, subst, ℕ_discrete, ◌==◌, if◌then◌else◌, Result, ok, err,
}
use call_node.Storage.{Storage, store, slot_unbonding_count, slot_unbonding, u256_to_u64}
use call_node.Validator.Types.{ValidatorError, no_unbonding_request, entry_id, entry_amount}
use call_node.Validator.Ops.{find_entry, remove_from_unbonding_queue}

-- How often a word stands among the `n` entries from `i` on.
abbrev pub occurs : ℕ → ℕ → ℕ → Storage → ℕ
occurs w zero i st = 0
occurs w (suc n) i st = (if st (slot_unbonding i) == w then 1 else 0) + occurs w n (suc i) st

abbrev pub queue_length : Storage → ℕ
queue_length st = u256_to_u64 (st slot_unbonding_count)

-- How often a word stands in the queue.
abbrev pub queued : ℕ → Storage → ℕ
queued w st = occurs w (queue_length st) 0 st

-- What the scan finds: the first entry with the id, or that there is none.
abbrev pub Finds : ℕ → ℕ → ℕ → Storage → Option (ℕ × ℕ) → Type 0
Finds n i id st none = (j : ℕ) → i ≤ j → j < i + n → entry_id (st (slot_unbonding j)) ≢ id
Finds n i id st (some (k, amount)) =
    (i ≤ k)
    × (k < i + n)
    × (entry_id (st (slot_unbonding k)) ≡ id)
    × (amount ≡ entry_amount (st (slot_unbonding k)))
    × ((j : ℕ) → i ≤ j → j < k → entry_id (st (slot_unbonding j)) ≢ id)

-- The first entry is not it, nor any of the rest below a bound.
after_first :
    (st : Storage) (id i j bound : ℕ)
    → entry_id (st (slot_unbonding i)) ≢ id
    → i ≤ j
    → (suc i ≤ j → j < bound → entry_id (st (slot_unbonding j)) ≢ id)
    → j < bound
    → entry_id (st (slot_unbonding j)) ≢ id
after_first st id i j bound ne le h lt = elim (ℕ_discrete i j) [
  | yes e ↦ subst (λ m. entry_id (st (slot_unbonding m)) ≢ id) e ne
  | no d ↦ h (omega arith) lt
]

Finds-suc :
    (n i id : ℕ) (st : Storage) (o : Option (ℕ × ℕ))
    → entry_id (st (slot_unbonding i)) ≢ id
    → Finds n (suc i) id st o
    → Finds (suc n) i id st o
Finds-suc n i id st none ne h =
    λ j le lt. after_first st id i j (suc i + n) ne le (h j) (omega arith)
Finds-suc n i id st (some (k, amount)) ne h =
    (omega arith, omega arith, h.2, h.3, λ j le lt. after_first st id i j k ne le (h.4 j) lt)

pub find_entry-Finds : (n i id : ℕ) (st : Storage) → Finds n i id st (find_entry n i id st)
unfolding find_entry
find_entry-Finds zero i id st = λ j le lt. absurd (omega arith)
find_entry-Finds (suc n) i id st = elim (Bool-cases (entry_id (st (slot_unbonding i)) == id)) [
  | inl e ↦ rw e (omega arith, omega arith, (==_iff _ _).0 e, refl, λ j le lt. absurd (omega arith))
  | inr e ↦ rw e (
      Finds-suc n i id st (find_entry n (suc i) id st) (ground arith)
        (find_entry-Finds n (suc i) id st))
]

-- A write outside the entries counted.
occurs-store_outside :
    (w n i j v : ℕ) (st : Storage)
    → (j < i) ⊎ (i + n ≤ j)
    → occurs w n i (store (slot_unbonding j) v st) ≡ occurs w n i st
occurs-store_outside w zero i j v st h = refl
occurs-store_outside w (suc n) i j v st h = ground (arith, occurs-store_outside w n (suc i) j v st)

occurs-store_inside :
    (w n i j v : ℕ) (st : Storage)
    → i ≤ j
    → j < i + n
    → occurs w n i (store (slot_unbonding j) v st) + (if st (slot_unbonding j) == w then 1 else 0)
      ≡ occurs w n i st + (if v == w then 1 else 0)
occurs-store_inside w zero i j v st h k = absurd (omega arith)
occurs-store_inside w (suc n) i j v st h k =
    ground (arith, occurs-store_inside w n (suc i) j v st, occurs-store_outside w n (suc i) j v st)

occurs-store_count :
    (w n i v : ℕ) (st : Storage) → occurs w n i (store slot_unbonding_count v st) ≡ occurs w n i st
occurs-store_count w zero i v st = refl
occurs-store_count w (suc n) i v st = ground (arith, occurs-store_count w n (suc i) v st)

-- The last of the entries counted.
occurs_last :
    (w n i : ℕ) (st : Storage)
    → occurs w (suc n) i st ≡ occurs w n i st + (if st (slot_unbonding (i + n)) == w then 1 else 0)
occurs_last w zero i st =
    let e : st (slot_unbonding (i + 0)) ≡ st (slot_unbonding i) =
      ap (λ k. st (slot_unbonding k)) (omega arith) in
    ground arith
occurs_last w (suc n) i st =
    let e : st (slot_unbonding (i + suc n)) ≡ st (slot_unbonding (suc i + n)) =
      ap (λ k. st (slot_unbonding k)) (omega arith) in
    ground (arith, occurs_last w n (suc i) st)

-- The entries left when the entry at `k` of `m + 1` is overwritten by the last and the last cut off.
occurs-swap_pop :
    (w m k : ℕ) (st : Storage)
    → k ≤ m
    → occurs w m 0 (store (slot_unbonding k) (st (slot_unbonding m)) st)
        + (if st (slot_unbonding k) == w then 1 else 0)
      ≡ occurs w (suc m) 0 st
occurs-swap_pop w m k st le =
    let e : st (slot_unbonding (0 + m)) ≡ st (slot_unbonding m) =
      ap (λ j. st (slot_unbonding j)) (omega arith) in
    elim (ℕ_discrete k m) [
      | yes same ↦
          let own : st (slot_unbonding k) ≡ st (slot_unbonding m) =
            ap (λ j. st (slot_unbonding j)) same in
          ground (
            arith,
            occurs_last w m 0 st,
            occurs-store_outside w m 0 k (st (slot_unbonding m)) st (inr (omega arith)),
          )
      | no other ↦
          let kept = occurs-store_inside w m 0 k (st (slot_unbonding m)) st in
          ground (arith, occurs_last w m 0 st, kept (omega arith) (omega arith))
    ]

-- The storage when the entry at `k` of `m + 1` has been removed.
abbrev pub popped : ℕ → ℕ → Storage → Storage
popped k m st = store slot_unbonding_count m (
    store (slot_unbonding m) 0 (
      if ltb 1 (suc m) && not (k == m)
      then store (slot_unbonding k) (st (slot_unbonding m)) st
      else st))

queued-popped :
    (v m k : ℕ) (st : Storage)
    → queue_length st ≡ suc m
    → k ≤ m
    → queued v (popped k m st) + (if st (slot_unbonding k) == v then 1 else 0) ≡ queued v st
queued-popped v m k st n le =
    let shorter : Storage =
      if ltb 1 (suc m) && not (k == m)
      then store (slot_unbonding k) (st (slot_unbonding m)) st
      else st in
    let e : st (slot_unbonding (0 + m)) ≡ st (slot_unbonding m) =
      ap (λ j. st (slot_unbonding j)) (omega arith) in
    let whole : queued v st ≡ occurs v (suc m) 0 st = ap (λ j. occurs v j 0 st) n in
    let short : u256_to_u64 m ≡ m = omega arith in
    let part : queued v (popped k m st) ≡ occurs v m 0 (popped k m st) =
      ap (λ j. occurs v j 0 (popped k m st)) short in
    ground (
      arith,
      occurs-store_count v m 0 m (store (slot_unbonding m) 0 shorter),
      occurs-store_outside v m 0 m 0 shorter (inr (omega arith)),
      occurs-swap_pop v m k st le,
      occurs_last v m 0 st,
    )

-- What the removal of a validator's entry comes to: no entry has its id and nothing changes; or
-- the queue is shorter by one entry with its id, which has the amount that is returned, and every
-- other entry stands in it as often as before.
abbrev pub Removes : ℕ → Storage → Result ValidatorError ℕ × Storage → Type 0
Removes id st (err e, st') =
    (e ≡ no_unbonding_request)
    × (st' ≡ st)
    × ((j : ℕ) → j < queue_length st → entry_id (st (slot_unbonding j)) ≢ id)
Removes id st (ok amount, st') =
    (w : ℕ) × (entry_id w ≡ id)
    × (amount ≡ entry_amount w)
    × (queue_length st' + 1 ≡ queue_length st)
    × ((v : ℕ) → queued v st' + (if w == v then 1 else 0) ≡ queued v st)

pub remove-popped :
    (id k amount m : ℕ) (st : Storage)
    → find_entry (queue_length st) 0 id st ≡ some (k, amount)
    → queue_length st ≡ suc m
    → remove_from_unbonding_queue id st ≡ (ok amount, popped k m st)
unfolding remove_from_unbonding_queue
remove-popped id k amount m st found n = ground arith

remove-none :
    (id : ℕ) (st : Storage)
    → find_entry (queue_length st) 0 id st ≡ none
    → remove_from_unbonding_queue id st ≡ (err no_unbonding_request, st)
unfolding remove_from_unbonding_queue
remove-none id st found = ground arith

Finds-Removes :
    (id : ℕ) (st : Storage) (o : Option (ℕ × ℕ))
    → find_entry (queue_length st) 0 id st ≡ o
    → Finds (queue_length st) 0 id st o
    → Removes id st (remove_from_unbonding_queue id st)
Finds-Removes id st none found h =
    rw (remove-none id st found) (refl, refl, λ j lt. h j (omega arith) (omega arith))
Finds-Removes id st (some (k, amount)) found h =
    let m = queue_length st - 1 in
    let n : queue_length st ≡ suc m = omega arith in
    rw (remove-popped id k amount m st found n)
      (st (slot_unbonding k), h.2, h.3, omega arith, λ v. queued-popped v m k st n (omega arith))

-- Removing a validator from the unbonding queue takes out one entry of its id and no other, or
-- fails, with nothing changed, exactly where the queue holds none.
pub remove_from_unbonding_queue-Removes :
    (id : ℕ) (st : Storage) → Removes id st (remove_from_unbonding_queue id st)
remove_from_unbonding_queue-Removes id st =
    Finds-Removes id st (find_entry (queue_length st) 0 id st) refl
      (find_entry-Finds (queue_length st) 0 id st)
