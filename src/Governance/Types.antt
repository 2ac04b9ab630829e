-- ===== src/Governance/Types.antt =====
-- crates/governance/src/precompile.rs: the messages of the errors and the constants.
use call_node.Prelude.{ℕ}

-- A `PrecompileError::Other`, by its message.
pub data GovError : Type 0 where
  unsupported_proposal_type proposal_rate_limited slash_data_too_short : GovError
  slash_amount_zero insufficient_deposit start_block_overflow end_block_overflow : GovError
  invalid_vote_value chain_paused invalid_proposal_id proposal_not_active : GovError
  voting_not_started voting_period_closed already_voted no_voting_power : GovError
  quorum_not_reached not_enough_for_votes timelock_block_overflow : GovError
  proposal_not_queued timelock_not_elapsed deposit_refund_failed : GovError
  malformed_execution_data : (proposal_type : ℕ) → GovError
  execution_timeout_reached key_not_utf8 : GovError
  disallowed_parameter_key bps_below_minimum bps_exceeds_100 majority_below_half : GovError
  period_exceeds_maximum cooldown_exceeds_maximum unknown_config_key : GovError
  recipient_zero amount_zero treasury_insufficient treasury_credit_failed : GovError
  old_pubkey_zero new_pubkey_zero invalid_compliance_status sunset_zero : GovError
  refund_failed already_paused not_paused only_proposer_can_cancel : GovError
  only_in_review unauthorized_to_queue not_a_validator already_signed : GovError
  caller_not_available compliance_check_failed out_of_gas : GovError

abbrev pub call_asset_id : ℕ
call_asset_id = 1

abbrev pub proposal_deposit : ℕ
proposal_deposit = 10_000_000_000_000_000_000_000

abbrev pub treasury_address : ℕ
treasury_address = 0xaaaaaaaaaaaaaaaaaaaaaaaaaaaaaaaaaaaaaaaa

abbrev pub gov_timelock_blocks : ℕ
gov_timelock_blocks = 100

abbrev pub gov_exec_timeout : ℕ
gov_exec_timeout = 1000

abbrev pub gov_proposal_cooldown : ℕ
gov_proposal_cooldown = 345_600

abbrev pub max_execution_data_len : ℕ
max_execution_data_len = 1_048_576
