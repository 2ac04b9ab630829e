-- ===== src/Mempool/Priority.antt =====
-- `PriorityPool` of crates/mempool/src/priority.rs. The BTreeMap is a list in the order of its keys.
use call_node.Prelude.{
  ℕ, ◌+◌, ◌-◌, ◌%◌, ◌^◌, max, Bool, true, false, ◌&&◌, ◌||◌, List, [], ◌∷◌, Option, none, some, ltb,
  leb, ◌==◌, if◌then◌else◌, length, saturating_add, u64_max,
}
use call_node.Mempool.Types.{PoolLimits, MempoolEntry, PriorityPool}

abbrev pub default_limits : PoolLimits
default_limits = record { max_evm_txs = 100000; max_per_address = 2000; lifetime_blocks = 72 }

unfoldable pub is_expired : MempoolEntry → ℕ → ℕ → Bool
is_expired e current_block lifetime = leb lifetime (current_block - e.entered_at_block)

abbrev pub Keyed : Type 0
Keyed = (ℕ × ℕ) × MempoolEntry

abbrev pub key_ltb : ℕ × ℕ → ℕ × ℕ → Bool
key_ltb (s, o) (t, p) = ltb s t || (s == t && ltb o p)

abbrev pub key_beq : ℕ × ℕ → ℕ × ℕ → Bool
key_beq (s, o) (t, p) = s == t && o == p

-- `insert` of a BTreeMap.
abbrev pub insert_key : ℕ × ℕ → MempoolEntry → List Keyed → List Keyed
insert_key k e [] = (k, e) ∷ []
insert_key k e ((j, d) ∷ ds) =
    if key_ltb k j
    then ((k, e) ∷ (j, d) ∷ ds)
    else if key_beq k j
    then ((j, e) ∷ ds)
    else ((j, d) ∷ insert_key k e ds)

-- `remove` of a BTreeMap.
abbrev pub remove_key : ℕ × ℕ → List Keyed → List Keyed
remove_key k [] = []
remove_key k ((j, d) ∷ ds) = if key_beq k j then ds else ((j, d) ∷ remove_key k ds)

abbrev pub empty_pool : PriorityPool
empty_pool = record { entries = []; next_order = 0 }

abbrev pub len : PriorityPool → ℕ
len p = length p.entries

-- The nonces of the sender's entries, in the order of the keys.
abbrev pub nonces_of : ℕ → List Keyed → List ℕ
nonces_of address [] = []
nonces_of address ((k, e) ∷ es) =
    if e.sender == address then (e.nonce ∷ nonces_of address es) else nonces_of address es

abbrev pub max_of : List ℕ → Option ℕ
max_of [] = none
max_of (n ∷ ns) = elim (max_of ns) [ none ↦ some n | some m ↦ some (max n m) ]

unfoldable pub get_address_nonce : PriorityPool → ℕ → ℕ
get_address_nonce p address = elim (max_of (nonces_of address p.entries)) [
  | none ↦ 0
  | some n ↦ saturating_add u64_max n 1
]

unfoldable pub insert_entry : PriorityPool → MempoolEntry → ℕ × PriorityPool
insert_entry p entry =
    let order = p.next_order in
    (
      order,
      record p {
        next_order = (p.next_order + 1) % 2 ^ 64;
        entries = insert_key (entry.score, order) entry p.entries;
      },
    )

abbrev pub find_hash : ℕ → List Keyed → Option Keyed
find_hash hash [] = none
find_hash hash ((k, e) ∷ es) = if e.hash == hash then some (k, e) else find_hash hash es

unfoldable pub remove_entry : PriorityPool → ℕ → Option MempoolEntry × PriorityPool
remove_entry p hash = elim (find_hash hash p.entries) [
  | none ↦ (none, p)
  | some found ↦ (some found.1, record p { entries = remove_key found.0 p.entries })
]

unfoldable pub contains : PriorityPool → ℕ → Bool
contains p hash = elim (find_hash hash p.entries) [ none ↦ false | some found ↦ true ]

-- A stable sort by falling score: an entry moves in front of those with a smaller score only.
abbrev pub insert_by_score : MempoolEntry → List MempoolEntry → List MempoolEntry
insert_by_score e [] = e ∷ []
insert_by_score e (d ∷ ds) =
    if ltb d.score e.score then (e ∷ d ∷ ds) else (d ∷ insert_by_score e ds)

abbrev pub sort_entries : List MempoolEntry → List Keyed → List MempoolEntry
sort_entries sorted [] = sorted
sort_entries sorted ((k, e) ∷ es) = sort_entries (insert_by_score e sorted) es

unfoldable pub drain_sorted : PriorityPool → List MempoolEntry
drain_sorted p = sort_entries [] p.entries

unfoldable pub clear : PriorityPool → PriorityPool
clear p = record p { entries = [] }

unfoldable pub lowest_score_entry : PriorityPool → Option MempoolEntry
lowest_score_entry p = elim p.entries [ [] ↦ none | e ∷ es ↦ some e.1 ]

unfoldable pub evict_lowest : PriorityPool → Option MempoolEntry × PriorityPool
evict_lowest p = elim p.entries [
  | [] ↦ (none, p)
  | e ∷ es ↦ (some e.1, record p { entries = remove_key e.0 p.entries })
]

abbrev pub expired_keys : ℕ → ℕ → List Keyed → List (ℕ × ℕ)
expired_keys current_block lifetime [] = []
expired_keys current_block lifetime ((k, e) ∷ es) =
    if is_expired e current_block lifetime
    then (k ∷ expired_keys current_block lifetime es)
    else expired_keys current_block lifetime es

abbrev pub remove_keys : List (ℕ × ℕ) → List Keyed → List Keyed
remove_keys [] es = es
remove_keys (k ∷ ks) es = remove_keys ks (remove_key k es)

unfoldable pub remove_expired : PriorityPool → ℕ → ℕ → ℕ × PriorityPool
unfolding is_expired
remove_expired p current_block lifetime =
    let expired = expired_keys current_block lifetime p.entries in
    (length expired, record p { entries = remove_keys expired p.entries })

abbrev pub count_sender : ℕ → List Keyed → ℕ
count_sender address [] = 0
count_sender address ((k, e) ∷ es) =
    if e.sender == address then 1 + count_sender address es else count_sender address es

unfoldable pub count_per_address : PriorityPool → ℕ → ℕ
count_per_address p address = count_sender address p.entries
