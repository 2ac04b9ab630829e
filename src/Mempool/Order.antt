-- ===== src/Mempool/Order.antt =====
-- The order in which `drain_sorted` of crates/mempool/src/priority.rs gives the entries.
use call_node.Prelude.{
  ℕ, ◌<◌, ◌≡◌, refl, sym, ap, ◌∙◌, subst, Bool, true, ◌&&◌, ◌||◌, List, [], ◌∷◌, ◌++◌, map, arith,
  ltb, ◌==◌, if◌then◌else◌, All, Bool-cases, inl, inr,
}
use mathlib.Core.List.{Perm, append-nil, perm_middle}
use mathlib.Core.List.Perm
use call_node.Mempool.Types.{PriorityPool}
use call_node.Mempool.Priority.{
  Keyed, key_ltb, key_beq, key_beq, insert_by_score, sort_entries, drain_sorted,
}

pub key_beq_refl : (k : ℕ × ℕ) → key_beq k k ≡ true
key_beq_refl k = ground arith

-- The keys rise strictly.
abbrev pub IsAscending : List Keyed → Type 0
IsAscending [] = Unit
IsAscending (x ∷ xs) = All (λ y. key_ltb x.0 y.0 ≡ true) xs × IsAscending xs

-- The key holds the entry's score, and an order that was given out.
abbrev pub IsKeyed : ℕ → Keyed → Type 0
IsKeyed next x = (x.0.0 ≡ x.1.score) × (x.0.1 < next)

abbrev pub IsPool : PriorityPool → Type 0
IsPool p = IsAscending p.entries × All (IsKeyed p.next_order) p.entries

-- The first comes before the second: by a greater score, or the same score and an earlier arrival.
abbrev pub comes_before : Keyed → Keyed → Bool
comes_before x y = ltb y.0.0 x.0.0 || (x.0.0 == y.0.0 && ltb x.0.1 y.0.1)

abbrev pub IsRanked : List Keyed → Type 0
IsRanked [] = Unit
IsRanked (x ∷ xs) = All (λ y. comes_before x y ≡ true) xs × IsRanked xs

-- The sort with the keys kept.
rank_one : Keyed → List Keyed → List Keyed
rank_one x [] = x ∷ []
rank_one x (y ∷ ys) = if ltb y.1.score x.1.score then (x ∷ y ∷ ys) else (y ∷ rank_one x ys)

rank : List Keyed → List Keyed → List Keyed
rank sorted [] = sorted
rank sorted (x ∷ xs) = rank (rank_one x sorted) xs

map-rank_one :
    (x : Keyed) (ys : List Keyed)
    → map (λ k. k.1) (rank_one x ys) ≡ insert_by_score x.1 (map (λ k. k.1) ys)
unfolding rank_one
map-rank_one x [] = refl
map-rank_one x (y ∷ ys) = ground (arith, map-rank_one x ys)

map-rank :
    (sorted xs : List Keyed)
    → map (λ k. k.1) (rank sorted xs) ≡ sort_entries (map (λ k. k.1) sorted) xs
unfolding rank
map-rank sorted [] = refl
map-rank sorted (x ∷ xs) =
    map-rank (rank_one x sorted) xs ∙ ap (λ l. sort_entries l xs) (map-rank_one x sorted)

rank_one-Perm : (x : Keyed) (ys : List Keyed) → Perm (rank_one x ys) (x ∷ ys)
unfolding rank_one
rank_one-Perm x [] = Perm.rfl
rank_one-Perm x (y ∷ ys) = elim (Bool-cases (ltb y.1.score x.1.score)) [
  | inl less ↦ rw less Perm.rfl
  | inr more ↦ rw more (Perm.trans (Perm.cons y (rank_one-Perm x ys)) (Perm.swap x y ys))
]

rank-Perm : (sorted xs : List Keyed) → Perm (rank sorted xs) (xs ++ sorted)
unfolding rank
rank-Perm sorted [] = Perm.rfl
rank-Perm sorted (x ∷ xs) =
    Perm.trans (rank-Perm (rank_one x sorted) xs)
      (Perm.trans (Perm.append_left xs (rank_one-Perm x sorted)) (perm_middle xs sorted))

All-rank_one :
    (P : Keyed → Type 0) (x : Keyed) (ys : List Keyed) → P x → All P ys → All P (rank_one x ys)
unfolding rank_one
All-rank_one P x [] p h = (p, tt)
All-rank_one P x (y ∷ ys) p h = elim (Bool-cases (ltb y.1.score x.1.score)) [
  | inl less ↦ rw less (p, h)
  | inr more ↦ rw more (h.0, All-rank_one P x ys p h.1)
]

-- The key holds the score.
abbrev HoldsScore : Keyed → Type 0
HoldsScore x = x.0.0 ≡ x.1.score

-- Behind an entry of a smaller score all have a smaller score.
ranked_above :
    (x y : Keyed) (ys : List Keyed)
    → HoldsScore x
    → HoldsScore y
    → All HoldsScore ys
    → ltb y.1.score x.1.score ≡ true
    → All (λ z. comes_before y z ≡ true) ys
    → All (λ z. comes_before x z ≡ true) ys
ranked_above x y [] hx hy hs less k = tt
ranked_above x y (z ∷ zs) hx hy hs less k = (ground arith, ranked_above x y zs hx hy hs.1 less k.1)

rank_one-IsRanked :
    (x : Keyed) (ys : List Keyed)
    → HoldsScore x
    → All HoldsScore ys
    → All (λ y. key_ltb y.0 x.0 ≡ true) ys
    → IsRanked ys
    → IsRanked (rank_one x ys)
unfolding rank_one
rank_one-IsRanked x [] hx hs b r = (tt, tt)
rank_one-IsRanked x (y ∷ ys) hx hs b r = elim (Bool-cases (ltb y.1.score x.1.score)) [
  | inl less ↦ rw less ((ground arith, ranked_above x y ys hx hs.0 hs.1 less r.0), r)
  | inr more ↦ rw more (
    All-rank_one (λ z. comes_before y z ≡ true) x ys (ground arith) r.0,
    rank_one-IsRanked x ys hx hs.1 b.1 r.1,
  )
]

-- Every key of the first list is below every key of the second.
abbrev AreBelow : List Keyed → List Keyed → Type 0
AreBelow ys xs = All (λ y. All (λ x. key_ltb y.0 x.0 ≡ true) xs) ys

AreBelow-first :
    (ys xs : List Keyed) (x : Keyed)
    → AreBelow ys (x ∷ xs)
    → All (λ y. key_ltb y.0 x.0 ≡ true) ys × AreBelow ys xs
AreBelow-first [] xs x h = (tt, tt)
AreBelow-first (y ∷ ys) xs x h =
    let rest = AreBelow-first ys xs x h.1 in ((h.0.0, rest.0), (h.0.1, rest.1))

rank-IsRanked :
    (sorted xs : List Keyed)
    → All HoldsScore sorted
    → All HoldsScore xs
    → AreBelow sorted xs
    → IsAscending xs
    → IsRanked sorted
    → IsRanked (rank sorted xs)
unfolding rank
rank-IsRanked sorted [] hs hx b a r = r
rank-IsRanked sorted (x ∷ xs) hs hx b a r =
    let split = AreBelow-first sorted xs x b in
    rank-IsRanked (rank_one x sorted) xs (All-rank_one HoldsScore x sorted hx.0 hs) hx.1
      (All-rank_one (λ y. All (λ z. key_ltb y.0 z.0 ≡ true) xs) x sorted a.0 split.1) a.1
      (rank_one-IsRanked x sorted hx.0 hs split.0 r)

IsKeyed-HoldsScore : (next : ℕ) (xs : List Keyed) → All (IsKeyed next) xs → All HoldsScore xs
IsKeyed-HoldsScore next [] h = tt
IsKeyed-HoldsScore next (x ∷ xs) h = (h.0.0, IsKeyed-HoldsScore next xs h.1)

-- The drained entries are those of the pool, by falling score and, of equal scores, in the order
-- in which they came.
pub drain_sorted-IsRanked :
    (p : PriorityPool)
    → IsPool p
    → (ranked : List Keyed) × (Perm ranked p.entries
        × (IsRanked ranked × (drain_sorted p ≡ map (λ k. k.1) ranked)))
unfolding drain_sorted
drain_sorted-IsRanked p h = (
  rank [] p.entries,
  (
    subst (Perm (rank [] p.entries)) (append-nil p.entries) (rank-Perm [] p.entries),
    (
      rank-IsRanked [] p.entries tt (IsKeyed-HoldsScore p.next_order p.entries h.1) tt h.0 tt,
      sym (map-rank [] p.entries),
    ),
  ),
)
