-- ===== src/Shielded/Spent.antt =====
-- The bitset of crates/shielded/src/nullifiers.rs covers the spent nullifiers.
use call_node.Prelude.{
  ℕ, zero, suc, ◌+◌, ◌-◌, ◌/◌, ◌≤◌, ◌<◌, ◌≡◌, ◌≢◌, refl, sym, ap, subst, ◌∙◌, Bool, true, false,
  List, [], ◌∷◌, ◌++◌, ◌==◌, ==_iff, leb, arith, length, length-append, length-replicate, replicate,
  member, nat_key, Bool-cases, inl, inr,
}
use call_node.Shielded.Merkle.{set_at}
use call_node.Shielded.Nullifiers.{
  NullifierSet, new_set, nullifier_bucket, nullifier_bit, has_bit, set_bit, ensure_bucket, word_at,
  mark, insert_nullifier, is_spent, maybe_spent, clear_nullifiers,
}

has_bit-set_bit : (bit word : ℕ) → has_bit bit (set_bit bit word) ≡ true
has_bit-set_bit zero word = ground arith
has_bit-set_bit (suc bit) word =
    subst (λ w. has_bit bit w ≡ true) (omega arith) (has_bit-set_bit bit (word / 2))

has_bit-set_bit_kept :
    (bit other word : ℕ) → has_bit other word ≡ true → has_bit other (set_bit bit word) ≡ true
has_bit-set_bit_kept zero zero word h = ground (arith, h)
has_bit-set_bit_kept zero (suc other) word h =
    let e : word / 2 ≡ set_bit 0 word / 2 = ground arith in subst (λ w. has_bit other w ≡ true) e h
has_bit-set_bit_kept (suc bit) zero word h = ground (arith, h)
has_bit-set_bit_kept (suc bit) (suc other) word h =
    subst (λ w. has_bit other w ≡ true) (omega arith) (has_bit-set_bit_kept bit other (word / 2) h)

has_bit_zero : (bit : ℕ) → has_bit bit 0 ≡ false
has_bit_zero zero = refl
has_bit_zero (suc bit) = has_bit_zero bit

word_at-append_zeros :
    (i n : ℕ) (words : List ℕ) → word_at i (words ++ replicate n 0) ≡ word_at i words
word_at-append_zeros i zero [] = refl
word_at-append_zeros zero (suc n) [] = refl
word_at-append_zeros (suc i) (suc n) [] = word_at-append_zeros i n []
word_at-append_zeros zero n (w ∷ words) = refl
word_at-append_zeros (suc i) n (w ∷ words) = word_at-append_zeros i n words

word_at-set_at : (i x : ℕ) (words : List ℕ) → i < length words → word_at i (set_at i x words) ≡ x
word_at-set_at i x [] h = absurd (omega (arith, h))
word_at-set_at zero x (w ∷ words) h = refl
word_at-set_at (suc i) x (w ∷ words) h = word_at-set_at i x words (omega (arith, h))

word_at-set_at_other :
    (i j x : ℕ) (words : List ℕ) → i ≢ j → word_at j (set_at i x words) ≡ word_at j words
word_at-set_at_other i j x [] h = refl
word_at-set_at_other zero zero x (w ∷ words) h = absurd (h refl)
word_at-set_at_other zero (suc j) x (w ∷ words) h = refl
word_at-set_at_other (suc i) zero x (w ∷ words) h = refl
word_at-set_at_other (suc i) (suc j) x (w ∷ words) h =
    word_at-set_at_other i j x words (λ e. h (ap suc e))

-- The bit of a nullifier in the words, those beyond the last being zero.
abbrev is_marked : ℕ → List ℕ → Bool
is_marked nullifier bitset =
    has_bit (nullifier_bit nullifier) (word_at (nullifier_bucket nullifier) bitset)

beyond : (i : ℕ) (words : List ℕ) → length words ≤ i → word_at i words ≡ 0
beyond i [] h = refl
beyond zero (w ∷ words) h = absurd (omega (arith, h))
beyond (suc i) (w ∷ words) h = beyond i words (omega (arith, h))

maybe_spent-is_marked :
    (nullifier : ℕ) (s : NullifierSet) → maybe_spent nullifier s ≡ is_marked nullifier s.bitset
unfolding maybe_spent
maybe_spent-is_marked nullifier s =
    elim (Bool-cases (leb (length s.bitset) (nullifier_bucket nullifier))) [
      | inl short ↦
          rw (short, beyond (nullifier_bucket nullifier) s.bitset (ground (arith, short)))
            (sym (has_bit_zero (nullifier_bit nullifier)))
      | inr long ↦ rw long refl
    ]

within : (bucket : ℕ) (words : List ℕ) → bucket < length (ensure_bucket bucket words)
unfolding ensure_bucket
within bucket words = omega (
  arith,
  length-append words (replicate (bucket + 1 - length words) 0),
  length-replicate {A = ℕ} (bucket + 1 - length words) 0,
)

is_marked-mark :
    (nullifier : ℕ) (bitset : List ℕ) → is_marked nullifier (mark nullifier bitset) ≡ true
unfolding mark
is_marked-mark nullifier bitset =
    let bucket = nullifier_bucket nullifier in
    let words = ensure_bucket bucket bitset in
    subst (λ w. has_bit (nullifier_bit nullifier) w ≡ true)
      (sym (
        word_at-set_at bucket (set_bit (nullifier_bit nullifier) (word_at bucket words)) words
          (within bucket bitset)))
      (has_bit-set_bit (nullifier_bit nullifier) (word_at bucket words))

is_marked-mark_kept :
    (nullifier other : ℕ) (bitset : List ℕ)
    → is_marked other bitset ≡ true
    → is_marked other (mark nullifier bitset) ≡ true
unfolding mark ensure_bucket
is_marked-mark_kept nullifier other bitset h =
    let bucket = nullifier_bucket nullifier in
    let words = ensure_bucket bucket bitset in
    let padded : word_at (nullifier_bucket other) words ≡ word_at (nullifier_bucket other) bitset =
      word_at-append_zeros (nullifier_bucket other) (bucket + 1 - length bitset) bitset in
    let before : is_marked other words ≡ true =
      subst (λ w. has_bit (nullifier_bit other) w ≡ true) (sym padded) h in
    let x = set_bit (nullifier_bit nullifier) (word_at bucket words) in
    elim (Bool-cases (bucket == nullifier_bucket other)) [
      | inl same ↦
          let e = (==_iff bucket (nullifier_bucket other)).0 same in
          subst (λ j. has_bit (nullifier_bit other) (word_at j (set_at bucket x words)) ≡ true) e
            (subst (λ w. has_bit (nullifier_bit other) w ≡ true)
              (sym (word_at-set_at bucket x words (within bucket bitset)))
              (has_bit-set_bit_kept (nullifier_bit nullifier) (nullifier_bit other)
                (word_at bucket words)
                (subst (λ j. has_bit (nullifier_bit other) (word_at j words) ≡ true) (sym e)
                  before)))
      | inr differ ↦
          subst (λ w. has_bit (nullifier_bit other) w ≡ true)
            (sym (
              word_at-set_at_other bucket (nullifier_bucket other) x words
                (λ e. ground (arith, e, differ))))
            before
    ]

-- Every spent nullifier is marked.
abbrev pub IsCovered : NullifierSet → Type 0
IsCovered s = (nullifier : ℕ) → is_spent nullifier s ≡ true → maybe_spent nullifier s ≡ true

marked :
    (s : NullifierSet)
    → ((n : ℕ) → member n s.spent ≡ true → is_marked n s.bitset ≡ true)
    → IsCovered s
unfolding is_spent
marked s h n spent = maybe_spent-is_marked n s ∙ h n spent

pub data Call : Type 0 where
  insert_call : ℕ → Call
  clear_call : Call

unfoldable pub after_call : Call → NullifierSet → NullifierSet
after_call (Call.insert_call nullifier) s = (insert_nullifier nullifier s).1
after_call Call.clear_call s = clear_nullifiers s

unfoldable pub after_calls : List Call → NullifierSet → NullifierSet
after_calls [] s = s
after_calls (c ∷ cs) s = after_calls cs (after_call c s)

abbrev IsMarked : NullifierSet → Type 0
IsMarked s = (n : ℕ) → member n s.spent ≡ true → is_marked n s.bitset ≡ true

insert_nullifier-IsMarked :
    (nullifier : ℕ) (s : NullifierSet) → IsMarked s → IsMarked (insert_nullifier nullifier s).1
unfolding insert_nullifier
insert_nullifier-IsMarked nullifier s h = elim (Bool-cases (member nullifier s.spent)) [
  | inl known ↦ rw known h
  | inr fresh ↦ rw fresh (λ n spent. elim (Bool-cases (nullifier == n)) [
    | inl same ↦
        subst (λ k. is_marked k (mark nullifier s.bitset) ≡ true) ((==_iff nullifier n).0 same)
          (is_marked-mark nullifier s.bitset)
    | inr differ ↦ is_marked-mark_kept nullifier n s.bitset (h n (ground (arith, spent, differ)))
  ])
]

after_call-IsMarked : (c : Call) (s : NullifierSet) → IsMarked s → IsMarked (after_call c s)
unfolding after_call clear_nullifiers
after_call-IsMarked (Call.insert_call nullifier) s h = insert_nullifier-IsMarked nullifier s h
after_call-IsMarked Call.clear_call s h = λ n spent. ground (arith, spent)

after_calls-IsMarked :
    (cs : List Call) (s : NullifierSet) → IsMarked s → IsMarked (after_calls cs s)
unfolding after_calls
after_calls-IsMarked [] s h = h
after_calls-IsMarked (c ∷ cs) s h =
    after_calls-IsMarked cs (after_call c s) (after_call-IsMarked c s h)

-- After any insertions and clearings of a new set, the bitset has no false negatives.
pub after_calls-IsCovered : (cs : List Call) → IsCovered (after_calls cs new_set)
after_calls-IsCovered cs =
    marked (after_calls cs new_set)
      (after_calls-IsMarked cs new_set (λ n spent. ground (arith, spent)))
