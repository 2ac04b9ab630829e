-- ===== src/Governance/Elections.antt =====
-- The tallies through any sequence of calls of the precompile.
use call_node.Prelude.{
  ℕ, ◌+◌, ◌≤◌, ◌<◌, ◌≡◌, sym, subst, ◌⊎◌, inl, inr, refl, Bool, true, false, List, [], ◌∷◌, arith,
  u64_max, u128_max, Result, ◌==◌, length, All, times, sum_of_same, Bool-cases, ==_iff,
  if◌then◌else◌,
}
use call_node.Storage.{
  Slot, Storage, ProposalKey, slot_gov_voter, slot_gov_voter_vote, slot_gov_proposal,
}
use call_node.Asset.Store.{read_balance}
use call_node.Governance.Types.{GovError}
use call_node.Governance.Reads.{read_proposal_count, read_proposal_u8}
use call_node.Governance.Voting.{tally_suffix, auto_advance, vote}
use call_node.Governance.Entry.{vote_call, vote_handler, voting_power, call_balance, is_validator}
use call_node.Governance.Advance.{}
use call_node.Governance.Ballots.{IsTallied, counted, vote-cases, record_vote-IsTallied}
use call_node.Governance.Untouched.{is_kept, auto_advance-Keeps}
use call_node.Governance.Calls.{Call, run_call, run_call_apart, IsApart}
use call_node.Governance.Counting.{Grows, call_counts}

-- What leaves the ballots leaves the tallies right.
IsTallied-same :
    (id choice : ℕ) (voters : List ℕ) (st st' : Storage)
    → ((p : Slot) → is_kept false false id p ≡ true → st' p ≡ st p)
    → IsTallied id choice voters st
    → IsTallied id choice voters st'
IsTallied-same id choice voters st st' k h = ground (
  arith,
  k (slot_gov_proposal id (tally_suffix choice)) (ground arith),
  h,
  sum_of_same (counted id choice st) (counted id choice st') voters same,
)
  where
    same : (w : ℕ) → counted id choice st' w ≡ counted id choice st w
    same w = ground (arith, k (slot_gov_voter id w), k (slot_gov_voter_vote id w))

module _ (id choice : ℕ) (voters : List ℕ) where
  advance-IsTallied :
      (block : ℕ) (st : Storage)
      → IsTallied id choice voters st
      → IsTallied id choice voters (auto_advance id block st).1
  advance-IsTallied block st =
      IsTallied-same id choice voters st (auto_advance id block st).1
        (λ p h. (auto_advance-Keeps false false id p h id block refl).at st)

  vote-IsTallied :
      (val voter power block : ℕ) (st : Storage)
      → 1 ≤ choice
      → choice ≤ 3
      → power ≤ u128_max
      → times voter voters ≡ 1
      → IsTallied id choice voters st
      → IsTallied id choice voters (vote id val voter power block st).1
  vote-IsTallied val voter power block st lo hi b once h =
      elim (vote-cases id val voter power block st) [
        | inl same ↦ subst (IsTallied id choice voters) (sym same) h
        | inr (inl advanced) ↦
            subst (IsTallied id choice voters) (sym advanced) (advance-IsTallied block st h)
        | inr (inr (vlo, vhi, recorded)) ↦
            subst (λ (x : Result GovError (Unit {0}) × Storage). IsTallied id choice voters x.1)
              (sym recorded)
              (record_vote-IsTallied id val voter power choice voters (auto_advance id block st).1
                vlo vhi lo hi b once (advance-IsTallied block st h))
      ]

call_balance-le : (caller : ℕ) (st : Storage) → call_balance caller st ≤ u128_max
unfolding read_balance
call_balance-le caller st = ground arith

voting_power-le :
    (t : ℕ) (v : Bool) (balance : ℕ) → balance ≤ u128_max → voting_power t v balance ≤ u128_max
voting_power-le t v balance h = ground arith

-- A vote through the precompile is a vote with the power that the storage gives.
pub vote_call-cases :
    (gas id val sender block : ℕ) (st : Storage)
    → ((vote_call gas id val sender block st).1 ≡ st)
      ⊎ ((vote_call gas id val sender block st).1
          ≡ (vote id val sender
              (voting_power
                (read_proposal_u8 id ProposalKey.proposal_type st)
                (is_validator sender st)
                (call_balance sender st))
              block
              st).1)
unfolding vote_call vote_handler
vote_call-cases gas id val sender block st = ground arith

-- Who votes on the proposal is listed once.
abbrev pub IsListed : ℕ → List ℕ → Call → Type 0
IsListed id voters (Call.vote _ q _ sender _) = (if q == id then times sender voters else 1) ≡ 1
IsListed id voters _ = Unit

module _ (keccak256 : List ℕ → ℕ) (id choice : ℕ) (voters : List ℕ) where
  -- A call that is no vote on the proposal.
  apart-IsTallied :
      (c : Call) (st : Storage)
      → id ≤ read_proposal_count st
      → read_proposal_count st < u64_max
      → IsApart false id c
      → IsTallied id choice voters st
      → IsTallied id choice voters (run_call keccak256 c st).1
  apart-IsTallied c st le lt o =
      IsTallied-same id choice voters st (run_call keccak256 c st).1
        (λ p h. run_call_apart keccak256 false false id p c st h refl le lt o)

  own-IsTallied :
      (gas val sender block : ℕ) (st : Storage)
      → 1 ≤ choice
      → choice ≤ 3
      → times sender voters ≡ 1
      → IsTallied id choice voters st
      → IsTallied id choice voters (vote_call gas id val sender block st).1
  own-IsTallied gas val sender block st lo hi once h =
      elim (vote_call-cases gas id val sender block st) [
        | inl same ↦ subst (IsTallied id choice voters) (sym same) h
        | inr voted ↦ subst (IsTallied id choice voters) (sym voted) (
            vote-IsTallied id choice voters val sender _ block st lo hi
              (voting_power-le (read_proposal_u8 id ProposalKey.proposal_type st)
                (is_validator sender st) _ (call_balance-le sender st))
              once h)
      ]

  call-IsTallied :
      (c : Call) (st : Storage)
      → 1 ≤ choice
      → choice ≤ 3
      → id ≤ read_proposal_count st
      → read_proposal_count st < u64_max
      → IsListed id voters c
      → IsTallied id choice voters st
      → IsTallied id choice voters (run_call keccak256 c st).1
  unfolding run_call
  call-IsTallied (Call.submit a b c d e f g i) st lo hi le lt l h =
      apart-IsTallied (Call.submit a b c d e f g i) st le lt tt h
  call-IsTallied (Call.vote gas q val sender block) st lo hi le lt l h =
      elim (Bool-cases (q == id)) [
        | inl same ↦
            subst (λ q. IsTallied id choice voters (vote_call gas q val sender block st).1)
              (sym ((==_iff q id).0 same))
              (own-IsTallied gas val sender block st lo hi (ground arith) h)
        | inr differ ↦ apart-IsTallied (Call.vote gas q val sender block) st le lt differ h
      ]
  call-IsTallied (Call.queue gas q sender block) st lo hi le lt l h =
      apart-IsTallied (Call.queue gas q sender block) st le lt refl h
  call-IsTallied (Call.execute gas q sender block) st lo hi le lt l h =
      apart-IsTallied (Call.execute gas q sender block) st le lt refl h
  call-IsTallied (Call.cancel gas q sender) st lo hi le lt l h =
      apart-IsTallied (Call.cancel gas q sender) st le lt refl h
  call-IsTallied (Call.pause gas reason sender) st lo hi le lt l h =
      apart-IsTallied (Call.pause gas reason sender) st le lt tt h
  call-IsTallied (Call.resume gas sender) st lo hi le lt l h =
      apart-IsTallied (Call.resume gas sender) st le lt tt h

-- The storage after calls, one after the other.
unfoldable pub run_calls : (List ℕ → ℕ) → List Call → Storage → Storage
unfolding run_call
run_calls keccak256 [] st = st
run_calls keccak256 (c ∷ cs) st = run_calls keccak256 cs (run_call keccak256 c st).1

-- If the tally of a choice on a proposal is the sum of the powers that its voters have recorded for
-- it, up to the greatest u128, it still is after any calls of the precompile, the failed ones
-- included, in which each voter on the proposal is one of the list, listed once, and which are
-- fewer than the proposals that the counter has left.
pub run_calls-IsTallied :
    (keccak256 : List ℕ → ℕ) (id choice : ℕ) (voters : List ℕ) (cs : List Call) (st : Storage)
    → 1 ≤ choice
    → choice ≤ 3
    → id ≤ read_proposal_count st
    → read_proposal_count st + length cs < u64_max
    → All (IsListed id voters) cs
    → IsTallied id choice voters st
    → IsTallied id choice voters (run_calls keccak256 cs st)
unfolding run_calls
run_calls-IsTallied keccak256 id choice voters [] st lo hi le lt l h = h
run_calls-IsTallied keccak256 id choice voters (c ∷ cs) st lo hi le lt l h =
    let grown : Grows st (run_call keccak256 c st).1 = call_counts keccak256 c st (omega arith) in
    run_calls-IsTallied keccak256 id choice voters cs (run_call keccak256 c st).1 lo hi
      (omega (arith, grown.0)) (omega (arith, grown.1)) l.1
      (call-IsTallied keccak256 id choice voters c st lo hi le (omega arith) l.0 h)
