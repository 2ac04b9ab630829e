-- ===== src/Storage/Keys.antt =====
-- The key suffixes of the governance slots (crates/governance/src/precompile.rs), with the number
-- that tells each from the others.
use Prim.Native.String.{String}
use call_node.Prelude.{ℕ, ◌≡◌, refl, ◌==◌, if◌then◌else◌}

-- The suffixes of a proposal's slots.
pub data ProposalKey : Type 0 where
  status proposer title desc data_hash : ProposalKey
  votes_for votes_against votes_abstain deposit start_block : ProposalKey
  end_block proposal_type review_end quorum_required data_len : ProposalKey
  queued_at execution_block : ProposalKey

abbrev pub proposal_code : ProposalKey → ℕ
proposal_code status = 0
proposal_code proposer = 1
proposal_code title = 2
proposal_code desc = 3
proposal_code data_hash = 4
proposal_code votes_for = 5
proposal_code votes_against = 6
proposal_code votes_abstain = 7
proposal_code deposit = 8
proposal_code start_block = 9
proposal_code end_block = 10
proposal_code proposal_type = 11
proposal_code review_end = 12
proposal_code quorum_required = 13
proposal_code data_len = 14
proposal_code queued_at = 15
proposal_code execution_block = 16

unfoldable pub proposal_of : ℕ → ProposalKey
proposal_of n =
    if n == 0
    then status
    else if n == 1
    then proposer
    else if n == 2
    then title
    else if n == 3
    then desc
    else if n == 4
    then data_hash
    else if n == 5
    then votes_for
    else if n == 6
    then votes_against
    else if n == 7
    then votes_abstain
    else if n == 8
    then deposit
    else if n == 9
    then start_block
    else if n == 10
    then end_block
    else if n == 11
    then proposal_type
    else if n == 12
    then review_end
    else if n == 13
    then quorum_required
    else if n == 14
    then data_len
    else if n == 15
    then queued_at
    else execution_block

pub proposal_of-proposal_code : (k : ProposalKey) → proposal_of (proposal_code k) ≡ k
unfolding proposal_of
proposal_of-proposal_code status = refl
proposal_of-proposal_code proposer = refl
proposal_of-proposal_code title = refl
proposal_of-proposal_code desc = refl
proposal_of-proposal_code data_hash = refl
proposal_of-proposal_code votes_for = refl
proposal_of-proposal_code votes_against = refl
proposal_of-proposal_code votes_abstain = refl
proposal_of-proposal_code deposit = refl
proposal_of-proposal_code start_block = refl
proposal_of-proposal_code end_block = refl
proposal_of-proposal_code proposal_type = refl
proposal_of-proposal_code review_end = refl
proposal_of-proposal_code quorum_required = refl
proposal_of-proposal_code data_len = refl
proposal_of-proposal_code queued_at = refl
proposal_of-proposal_code execution_block = refl

-- The suffixes of the governance configuration's slots.
pub data ConfigKey : Type 0 where
  validator_quorum_bps supply_quorum_bps treasury_quorum_bps simple_majority_bps
        emergency_pause_bps :
      ConfigKey
  review_period voting_period timelock execution_timeout proposal_cooldown : ConfigKey
  proposal_deposit asset_registration_fee : ConfigKey

abbrev pub config_code : ConfigKey → ℕ
config_code validator_quorum_bps = 0
config_code supply_quorum_bps = 1
config_code treasury_quorum_bps = 2
config_code simple_majority_bps = 3
config_code emergency_pause_bps = 4
config_code review_period = 5
config_code voting_period = 6
config_code timelock = 7
config_code execution_timeout = 8
config_code proposal_cooldown = 9
config_code proposal_deposit = 10
config_code asset_registration_fee = 11

unfoldable pub config_of : ℕ → ConfigKey
config_of n =
    if n == 0
    then validator_quorum_bps
    else if n == 1
    then supply_quorum_bps
    else if n == 2
    then treasury_quorum_bps
    else if n == 3
    then simple_majority_bps
    else if n == 4
    then emergency_pause_bps
    else if n == 5
    then review_period
    else if n == 6
    then voting_period
    else if n == 7
    then timelock
    else if n == 8
    then execution_timeout
    else if n == 9
    then proposal_cooldown
    else if n == 10
    then proposal_deposit
    else asset_registration_fee

pub config_of-config_code : (k : ConfigKey) → config_of (config_code k) ≡ k
unfolding config_of
config_of-config_code validator_quorum_bps = refl
config_of-config_code supply_quorum_bps = refl
config_of-config_code treasury_quorum_bps = refl
config_of-config_code simple_majority_bps = refl
config_of-config_code emergency_pause_bps = refl
config_of-config_code review_period = refl
config_of-config_code voting_period = refl
config_of-config_code timelock = refl
config_of-config_code execution_timeout = refl
config_of-config_code proposal_cooldown = refl
config_of-config_code proposal_deposit = refl
config_of-config_code asset_registration_fee = refl

-- The suffixes of the slots of a pending rotation of the prover's keys.
pub data ProverKey : Type 0 where
  version transfer_vk_hash deposit_vk_hash withdraw_vk_hash sunset_timestamp : ProverKey
  pending : ProverKey

abbrev pub prover_code : ProverKey → ℕ
prover_code version = 0
prover_code transfer_vk_hash = 1
prover_code deposit_vk_hash = 2
prover_code withdraw_vk_hash = 3
prover_code sunset_timestamp = 4
prover_code pending = 5

unfoldable pub prover_of : ℕ → ProverKey
prover_of n =
    if n == 0
    then version
    else if n == 1
    then transfer_vk_hash
    else if n == 2
    then deposit_vk_hash
    else if n == 3
    then withdraw_vk_hash
    else if n == 4
    then sunset_timestamp
    else pending

pub prover_of-prover_code : (k : ProverKey) → prover_of (prover_code k) ≡ k
unfolding prover_of
prover_of-prover_code version = refl
prover_of-prover_code transfer_vk_hash = refl
prover_of-prover_code deposit_vk_hash = refl
prover_of-prover_code withdraw_vk_hash = refl
prover_of-prover_code sunset_timestamp = refl
prover_of-prover_code pending = refl

abbrev pub proposal_text : ProposalKey → String
proposal_text status = "status"
proposal_text proposer = "proposer"
proposal_text title = "title"
proposal_text desc = "desc"
proposal_text data_hash = "data"
proposal_text votes_for = "votes_for"
proposal_text votes_against = "votes_against"
proposal_text votes_abstain = "votes_abstain"
proposal_text deposit = "deposit"
proposal_text start_block = "start_block"
proposal_text end_block = "end_block"
proposal_text proposal_type = "proposal_type"
proposal_text review_end = "review_end"
proposal_text quorum_required = "quorum_required"
proposal_text data_len = "data_len"
proposal_text queued_at = "queued_at"
proposal_text execution_block = "execution_block"

abbrev pub config_text : ConfigKey → String
config_text validator_quorum_bps = "validator_quorum_bps"
config_text supply_quorum_bps = "supply_quorum_bps"
config_text treasury_quorum_bps = "treasury_quorum_bps"
config_text simple_majority_bps = "simple_majority_bps"
config_text emergency_pause_bps = "emergency_pause_bps"
config_text review_period = "review_period"
config_text voting_period = "voting_period"
config_text timelock = "timelock"
config_text execution_timeout = "execution_timeout"
config_text proposal_cooldown = "proposal_cooldown"
config_text proposal_deposit = "proposal_deposit"
config_text asset_registration_fee = "asset_registration_fee"

abbrev pub prover_text : ProverKey → String
prover_text version = "version"
prover_text transfer_vk_hash = "transfer_vk_hash"
prover_text deposit_vk_hash = "deposit_vk_hash"
prover_text withdraw_vk_hash = "withdraw_vk_hash"
prover_text sunset_timestamp = "sunset_timestamp"
prover_text pending = "pending"
