-- ===== src/Shielded/Nullifiers.antt =====
-- NullifierSet of crates/shielded/src/nullifiers.rs. A nullifier is the number that the 32 bytes of
-- its hash spell; a word of the bitset is read and changed digit by digit.
use call_node.Prelude.{
  ℕ, zero, suc, ◌+◌, ◌-◌, ◌*◌, ◌/◌, ◌%◌, Bool, true, false, List, [], ◌++◌, ◌==◌, leb,
  if◌then◌else◌, length, get_elem?, take, drop, replicate, member, include, nat_key, to_be_bytes,
  from_le_bytes,
}
use call_node.Shielded.Merkle.{set_at, hash_or}

pub record NullifierSet : Type 0 where
  pub spent : List ℕ
  pub bitset : List ℕ

abbrev pub new_set : NullifierSet
new_set = record { spent = []; bitset = [] }

unfoldable pub nullifier_bucket : ℕ → ℕ
nullifier_bucket nullifier = from_le_bytes (take 8 (to_be_bytes 32 nullifier)) % 64

unfoldable pub nullifier_bit : ℕ → ℕ
nullifier_bit nullifier = from_le_bytes (take 8 (drop 8 (to_be_bytes 32 nullifier))) % 64

-- `word & (1 << bit) != 0`.
abbrev pub has_bit : ℕ → ℕ → Bool
has_bit zero word = word % 2 == 1
has_bit (suc bit) word = has_bit bit (word / 2)

-- `word | 1 << bit`.
abbrev pub set_bit : ℕ → ℕ → ℕ
set_bit zero word = if word % 2 == 1 then word else word + 1
set_bit (suc bit) word = word % 2 + 2 * set_bit bit (word / 2)

unfoldable pub ensure_bucket : ℕ → List ℕ → List ℕ
ensure_bucket bucket bitset = bitset ++ replicate (bucket + 1 - length bitset) 0

abbrev pub word_at : ℕ → List ℕ → ℕ
word_at bucket bitset = hash_or 0 (get_elem? bitset bucket)

unfoldable pub mark : ℕ → List ℕ → List ℕ
mark nullifier bitset =
    let bucket = nullifier_bucket nullifier in
    let words = ensure_bucket bucket bitset in
    set_at bucket (set_bit (nullifier_bit nullifier) (word_at bucket words)) words

-- Whether the nullifier was new, and the set after it.
unfoldable pub insert_nullifier : ℕ → NullifierSet → Bool × NullifierSet
insert_nullifier nullifier s =
    if member nullifier s.spent
    then (false, s)
    else (true, record { spent = include nullifier s.spent; bitset = mark nullifier s.bitset })

unfoldable pub is_spent : ℕ → NullifierSet → Bool
is_spent nullifier s = member nullifier s.spent

unfoldable pub maybe_spent : ℕ → NullifierSet → Bool
maybe_spent nullifier s =
    let bucket = nullifier_bucket nullifier in
    if leb (length s.bitset) bucket
    then false
    else has_bit (nullifier_bit nullifier) (word_at bucket s.bitset)

unfoldable pub clear_nullifiers : NullifierSet → NullifierSet
clear_nullifiers s = record { spent = []; bitset = [] }
