-- ===== src/Governance/Emergency.antt =====
-- crates/governance/src/precompile.rs: the emergency pause and resume, each by the signatures of
-- enough validators in one epoch. The two keep their signatures in slots of their own.
use call_node.Prelude.{ℕ, ◌+◌, ◌%◌, ◌^◌, Bool, not, leb, ◌==◌, if◌then◌else◌}
use call_node.Storage.{
  Slot, Storage, load, gets, return, throw_if, write, ◌>>=◌, ◌>>◌, slot_gov_paused,
  slot_gov_pause_reason, slot_emergency_pause_epoch, slot_emergency_pause_sig_epoch,
  slot_emergency_pause_sig_count, slot_emergency_resume_epoch, slot_emergency_resume_sig_epoch,
  slot_emergency_resume_sig_count, u256_to_u64, u64_to_u256,
}
use call_node.Governance.Types.{already_paused, not_paused, already_signed}
use call_node.Governance.Config.{emergency_pause_threshold}
use call_node.Governance.Reads.{Act, is_paused, read_validator_count}
use call_node.Governance.Submission.{governance_config}

-- Which of the two the signatures are for.
pub data Alarm : Type 0 where
  pausing resuming : Alarm

abbrev pub slot_epoch : Alarm → Slot
slot_epoch pausing = slot_emergency_pause_epoch
slot_epoch resuming = slot_emergency_resume_epoch

abbrev pub slot_sig_epoch : Alarm → ℕ → Slot
slot_sig_epoch pausing = slot_emergency_pause_sig_epoch
slot_sig_epoch resuming = slot_emergency_resume_sig_epoch

abbrev pub slot_sig_count : Alarm → Slot
slot_sig_count pausing = slot_emergency_pause_sig_count
slot_sig_count resuming = slot_emergency_resume_sig_count

abbrev pub read_emergency_epoch : Alarm → Storage → ℕ
read_emergency_epoch alarm st = u256_to_u64 (load (slot_epoch alarm) st)

abbrev pub read_emergency_sig_epoch : Alarm → ℕ → Storage → ℕ
read_emergency_sig_epoch alarm addr st = u256_to_u64 (load (slot_sig_epoch alarm addr) st)

abbrev pub read_emergency_sig_count : Alarm → Storage → ℕ
read_emergency_sig_count alarm st = u256_to_u64 (load (slot_sig_count alarm) st)

abbrev pub increment_emergency_epoch : Alarm → Act (Unit {0})
increment_emergency_epoch alarm = do
  epoch ← gets (read_emergency_epoch alarm)
  write (slot_epoch alarm) ((epoch + 1) % 2 ^ 64)

abbrev pub increment_emergency_sig_count : Alarm → Act ℕ
increment_emergency_sig_count alarm = do
  count ← gets (read_emergency_sig_count alarm)
  let new_count = (count + 1) % 2 ^ 64
  write (slot_sig_count alarm) (u64_to_u256 new_count)
  return new_count

abbrev pub reset_emergency_sig_count : Alarm → Act (Unit {0})
reset_emergency_sig_count alarm = write (slot_sig_count alarm) 0

unfoldable pub emergency_pause : ℕ → Act (Unit {0})
emergency_pause reason = do
  paused ← gets is_paused
  throw_if paused already_paused
  write slot_gov_paused 1
  write slot_gov_pause_reason reason

unfoldable pub emergency_resume : Act (Unit {0})
emergency_resume = do
  paused ← gets is_paused
  throw_if (not paused) not_paused
  write slot_gov_paused 0
  write slot_gov_pause_reason 0

-- The epoch in force: the first call makes it 1.
unfoldable pub start_epoch : Alarm → Act ℕ
start_epoch alarm = do
  epoch ← gets (read_emergency_epoch alarm)
  (if epoch == 0 then write (slot_epoch alarm) 1 >> return 1 else return epoch)

-- The signature of a validator, once in an epoch: whether it is the last that was needed.
unfoldable pub sign : Alarm → ℕ → Act Bool
sign alarm caller = do
  epoch ← start_epoch alarm
  last_signed ← gets (read_emergency_sig_epoch alarm caller)
  throw_if (leb epoch last_signed) already_signed
  write (slot_sig_epoch alarm caller) (u64_to_u256 epoch)
  count ← increment_emergency_sig_count alarm
  validator_count ← gets read_validator_count
  config ← governance_config
  return (leb (emergency_pause_threshold config validator_count) count)

-- The next round starts without signatures.
abbrev pub next_round : Alarm → Act (Unit {0})
next_round alarm = do increment_emergency_epoch alarm; reset_emergency_sig_count alarm
