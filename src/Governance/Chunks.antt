-- ===== src/Governance/Chunks.antt =====
-- The data of a proposal comes back from its chunks as it was submitted.
use mathlib.Core.List.{append_assoc, append-nil}
use call_node.Prelude.{
  ℕ, zero, suc, ◌+◌, ◌-◌, ◌*◌, ◌/◌, ◌≤◌, ◌<◌, ◌≡◌, sym, refl, ◌∙◌, ap, min, List, [], ◌∷◌, ◌++◌,
  arith, length, take, drop, replicate, All, IsByte, to_be_bytes, to_be_bytes-from_be_bytes,
  length-append, length-replicate, All-append,
}
use call_node.Storage.{Storage, store, slot_gov_proposal_data_chunk}
use call_node.Governance.Types.{max_execution_data_len}
use call_node.Governance.Reads.{read_chunks, read_proposal_data_len, read_proposal_execution_data}
use call_node.Governance.Submission.{chunks, chunk_word, write_chunks}

module _ {ℓ} {A : Type ℓ} where
  take_append : (xs ys : List A) → take (length xs) (xs ++ ys) ≡ xs
  take_append [] ys = take_zero ys
    where
      take_zero : (zs : List A) → take 0 zs ≡ []
      take_zero [] = refl
      take_zero (z ∷ zs) = refl
  take_append (x ∷ xs) ys = ap (λ l. x ∷ l) (take_append xs ys)

  append-take-drop : (n : ℕ) (xs : List A) → take n xs ++ drop n xs ≡ xs
  append-take-drop zero xs = refl
  append-take-drop (suc n) [] = refl
  append-take-drop (suc n) (x ∷ xs) = ap (λ l. x ∷ l) (append-take-drop n xs)

  length-take : (n : ℕ) (xs : List A) → length (take n xs) ≡ min n (length xs)
  length-take zero xs = omega arith
  length-take (suc n) [] = omega arith
  length-take (suc n) (x ∷ xs) = omega (arith, length-take n xs)

All-take : (n : ℕ) (xs : List ℕ) → All IsByte xs → All IsByte (take n xs)
All-take zero xs h = tt
All-take (suc n) [] h = tt
All-take (suc n) (x ∷ xs) h = (h.0, All-take n xs h.1)

All-drop : (n : ℕ) (xs : List ℕ) → All IsByte xs → All IsByte (drop n xs)
All-drop zero xs h = h
All-drop (suc n) [] h = tt
All-drop (suc n) (x ∷ xs) h = All-drop n xs h.1

All-zeros : (n : ℕ) → All IsByte (replicate n 0)
All-zeros zero = tt
All-zeros (suc n) = (ground arith, All-zeros n)

-- A chunk is read back from its word.
chunk_back :
    (c : List ℕ)
    → length c ≤ 32
    → All IsByte c
    → take (length c) (to_be_bytes 32 (chunk_word c)) ≡ c
chunk_back c le h =
    let zeros : length (replicate {A = ℕ} (32 - length c) 0) ≡ 32 - length c =
      length-replicate (32 - length c) 0 in
    ap (take (length c)) (
      to_be_bytes-from_be_bytes 32 (c ++ replicate (32 - length c) 0)
        (omega (arith, length-append c (replicate (32 - length c) 0), zeros))
        (All-append IsByte c (replicate (32 - length c) 0) h (All-zeros (32 - length c))))
    ∙ take_append c (replicate (32 - length c) 0)

-- The storage has the chunks of the bytes from the given index on.
abbrev pub HasChunks : ℕ → ℕ → ℕ → List ℕ → Storage → Type 0
HasChunks id i zero bs st = Unit
HasChunks id i (suc n) bs st =
    (st (slot_gov_proposal_data_chunk id i) ≡ chunk_word (take 32 bs))
    × HasChunks id (i + 1) n (drop 32 bs) st

write_chunks_earlier :
    (id i j : ℕ) (cs : List (List ℕ)) (st : Storage)
    → j < i
    → (write_chunks id i cs st).1 (slot_gov_proposal_data_chunk id j)
      ≡ st (slot_gov_proposal_data_chunk id j)
unfolding write_chunks
write_chunks_earlier id i j [] st lt = refl
write_chunks_earlier id i j (c ∷ cs) st lt = ground (
  arith,
  write_chunks_earlier id (i + 1) j cs
      (store (slot_gov_proposal_data_chunk id i) (chunk_word c) st),
)

pub write_chunks-HasChunks :
    (id i n : ℕ) (bs : List ℕ) (st : Storage)
    → HasChunks id i n bs (write_chunks id i (chunks n bs) st).1
unfolding write_chunks chunks
write_chunks-HasChunks id i zero bs st = tt
write_chunks-HasChunks id i (suc n) bs st =
    let wrote = store (slot_gov_proposal_data_chunk id i) (chunk_word (take 32 bs)) st in
    (
      ground (arith, write_chunks_earlier id (i + 1) i (chunks n (drop 32 bs)) wrote),
      write_chunks-HasChunks id (i + 1) n (drop 32 bs) wrote,
    )

pub HasChunks-same :
    (id i n : ℕ) (bs : List ℕ) (st st' : Storage)
    → ((j : ℕ) → st' (slot_gov_proposal_data_chunk id j) ≡ st (slot_gov_proposal_data_chunk id j))
    → HasChunks id i n bs st
    → HasChunks id i n bs st'
HasChunks-same id i zero bs st st' k h = tt
HasChunks-same id i (suc n) bs st st' k h =
    (k i ∙ h.0, HasChunks-same id (i + 1) n (drop 32 bs) st st' k h.1)

length-drop : (n : ℕ) (bs : List ℕ) → length (drop n bs) ≡ length bs - n
length-drop zero bs = omega arith
length-drop (suc n) [] = omega arith
length-drop (suc n) (b ∷ bs) = omega (arith, length-drop n bs)

-- A step of the loop that reads.
read_step :
    (st : Storage) (id i data_len : ℕ) (result bs : List ℕ)
    → length result + length bs ≡ data_len
    → All IsByte bs
    → st (slot_gov_proposal_data_chunk id i) ≡ chunk_word (take 32 bs)
    → result
        ++ take
            (min (data_len - length result) 32)
            (to_be_bytes 32 (st (slot_gov_proposal_data_chunk id i)))
      ≡ result ++ take 32 bs
read_step st id i data_len result bs e h k =
    ap (λ l. result ++ l)
      (ap (λ w. take (min (data_len - length result) 32) (to_be_bytes 32 w)) k
        ∙ ap (λ n. take n (to_be_bytes 32 (chunk_word (take 32 bs))))
            (omega (arith, length-take 32 bs))
        ∙ chunk_back (take 32 bs) (omega (arith, length-take 32 bs)) (All-take 32 bs h))

read_chunks-HasChunks :
    (n id i data_len : ℕ) (result bs : List ℕ) (st : Storage)
    → length result + length bs ≡ data_len
    → length bs ≤ n * 32
    → All IsByte bs
    → HasChunks id i n bs st
    → read_chunks n id i data_len result st ≡ result ++ bs
unfolding read_chunks
read_chunks-HasChunks zero id i data_len result [] st e le h k = sym (append-nil result)
read_chunks-HasChunks zero id i data_len result (b ∷ bs) st e le h k = ground arith
read_chunks-HasChunks (suc n) id i data_len result bs st e le h k =
    ap (λ r. read_chunks n id (i + 1) data_len r st) (read_step st id i data_len result bs e h k.0)
    ∙ read_chunks-HasChunks n id (i + 1) data_len (result ++ take 32 bs) (drop 32 bs) st
        (omega (arith, length-append result (take 32 bs), length-take 32 bs, length-drop 32 bs))
        (omega (arith, length-drop 32 bs)) (All-drop 32 bs h) k.1
    ∙ append_assoc result (take 32 bs) (drop 32 bs)
    ∙ ap (λ l. result ++ l) (append-take-drop 32 bs)

-- What a storage with the length and the chunks of the data reads.
pub execution_data_back :
    (id : ℕ) (bs : List ℕ) (st : Storage)
    → length bs ≤ max_execution_data_len
    → All IsByte bs
    → read_proposal_data_len id st ≡ length bs
    → HasChunks id 0 ((length bs + 31) / 32) bs st
    → read_proposal_execution_data id st ≡ bs
unfolding read_proposal_execution_data
execution_data_back id [] st le h e k = ground arith
execution_data_back id (b ∷ bs) st le h e k = ground (arith, found)
  where
    found : read_chunks ((length (b ∷ bs) + 31) / 32) id 0 (length (b ∷ bs)) [] st ≡ b ∷ bs
    found =
        read_chunks-HasChunks ((length (b ∷ bs) + 31) / 32) id 0 (length (b ∷ bs)) [] (b ∷ bs) st
          (omega arith) (omega arith) h k
