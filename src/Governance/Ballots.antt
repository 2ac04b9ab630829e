-- ===== src/Governance/Ballots.antt =====
-- The tallies of a proposal are the powers recorded with its votes: `vote` counts a voter's power
-- once, and no other call touches a ballot.
use call_node.Prelude.{
  ℕ, ◌+◌, ◌*◌, ◌⊎◌, subst, ◌≤◌, ◌≡◌, ◌≢◌, sym, min, List, arith, ◌==◌, if◌then◌else◌, u128_max,
  sum_of, sum_of_raised, times, ok, err, Result-cases, inl, inr,
}
use call_node.Storage.{Storage}
use call_node.Governance.Types.{GovError}
use call_node.Governance.Reads.{read_vote_tally, read_voter_power, read_voter_vote}
use call_node.Governance.Voting.{tally_suffix, record_vote, require_open, vote, auto_advance}
use call_node.Governance.Advance.{auto_advance-ok}

-- What a voter's recorded vote adds to the tally of a choice.
abbrev pub counted : ℕ → ℕ → Storage → ℕ → ℕ
counted id choice st voter =
    if read_voter_vote id voter st == choice then read_voter_power id voter st else 0

-- The tally of a choice is the sum of the recorded powers, up to the greatest u128.
abbrev pub IsTallied : ℕ → ℕ → List ℕ → Storage → Type 0
IsTallied id choice voters st =
    read_vote_tally id (tally_suffix choice) st
    ≡ min u128_max (sum_of (counted id choice st) voters)

-- Where the vote was refused, the ballots are as they were.
record_vote_refused :
    (id val voter power : ℕ) (st : Storage) (e : GovError)
    → (record_vote id val voter power st).0 ≡ err e
    → (record_vote id val voter power st).1 ≡ st
unfolding record_vote
record_vote_refused id val voter power st e h = ground arith

module _ (id val voter power choice : ℕ) (st : Storage) where
  record_vote_others :
      (w : ℕ)
      → w ≢ voter
      → counted id choice (record_vote id val voter power st).1 w ≡ counted id choice st w
  unfolding record_vote
  record_vote_others w h = ground arith

  record_vote_own :
      (record_vote id val voter power st).0 ≡ ok tt
      → 1 ≤ val
      → val ≤ 3
      → power ≤ u128_max
      → counted id choice (record_vote id val voter power st).1 voter
        ≡ counted id choice st voter + (if val == choice then power else 0)
  unfolding record_vote
  record_vote_own h lo hi b = ground arith

  record_vote_tally :
      (record_vote id val voter power st).0 ≡ ok tt
      → 1 ≤ val
      → val ≤ 3
      → 1 ≤ choice
      → choice ≤ 3
      → power ≤ u128_max
      → read_vote_tally id (tally_suffix choice) (record_vote id val voter power st).1
        ≡ min u128_max
            (read_vote_tally id (tally_suffix choice) st + (if val == choice then power else 0))
  unfolding record_vote
  record_vote_tally h lo hi clo chi b = ground arith

pub record_vote-IsTallied :
    (id val voter power choice : ℕ) (voters : List ℕ) (st : Storage)
    → 1 ≤ val
    → val ≤ 3
    → 1 ≤ choice
    → choice ≤ 3
    → power ≤ u128_max
    → times voter voters ≡ 1
    → IsTallied id choice voters st
    → IsTallied id choice voters (record_vote id val voter power st).1
record_vote-IsTallied id val voter power choice voters st lo hi clo chi b once h =
    elim (Result-cases (record_vote id val voter power st).0) [
      | inl r ↦
          let raised =
            sum_of_raised (counted id choice st)
              (counted id choice (record_vote id val voter power st).1) voter
              (if val == choice then power else 0) voters
              (record_vote_others id val voter power choice st)
              (record_vote_own id val voter power choice st r.1 lo hi b) in
          let tally = record_vote_tally id val voter power choice st r.1 lo hi clo chi b in
          counts _ _ _ _ _ _ once h raised tally
      | inr r ↦
          subst (IsTallied id choice voters)
            (sym (record_vote_refused id val voter power st r.0 r.1)) h
    ]
  where
    counts :
        (t s t' s' d n : ℕ)
        → n ≡ 1
        → t ≡ min u128_max s
        → s' ≡ s + n * d
        → t' ≡ min u128_max (t + d)
        → t' ≡ min u128_max s'
    counts t s t' s' d n one h raised tally = ground (arith)

-- How far a vote comes: to no change, to the step to Active, or to the ballot.
pub vote-cases :
    (id val voter power block : ℕ) (st : Storage)
    → ((vote id val voter power block st).1 ≡ st)
      ⊎ ((vote id val voter power block st).1 ≡ (auto_advance id block st).1)
      ⊎ (1 ≤ val)
        × (val ≤ 3)
        × (vote id val voter power block st
            ≡ record_vote id val voter power (auto_advance id block st).1)
unfolding vote require_open
vote-cases id val voter power block st = ground (arith, auto_advance-ok id block st)
