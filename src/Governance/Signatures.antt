-- ===== src/Governance/Signatures.antt =====
-- The signatures of an emergency, of emergency_pause and emergency_resume in
-- crates/governance/src/precompile.rs: each validator counts once in an epoch, and a signature is the
-- last that was needed only when the threshold is reached.
use call_node.Prelude.{
  ℕ, ◌*◌, ◌+◌, ◌%◌, ◌^◌, ◌<◌, ◌≡◌, sym, subst, ap, max, Bool, List, arith, leb, ◌==◌, if◌then◌else◌,
  sum_of, ok,
}
use call_node.Storage.{
  Slot, slot_eq, Storage, ConfigKey, store, slot_gov_config, slot_gov_config_initialized,
  slot_gov_paused,
}
use call_node.Governance.Types.{}
use call_node.Governance.Config.{div_ceil, emergency_pause_threshold}
use call_node.Governance.Reads.{is_paused, read_validator_count, read_config_u32}
use call_node.Governance.Submission.{ensure_config_initialized, governance_config, stored_config}
use call_node.Governance.Emergency.{
  Alarm, pausing, resuming, slot_epoch, slot_sig_epoch, slot_sig_count, read_emergency_epoch,
  read_emergency_sig_epoch, read_emergency_sig_count, start_epoch, sign,
}
use call_node.Governance.Advance.{IsUnconfigured, ensure_frame}

-- The epoch that a signature is for.
abbrev pub epoch_of : Alarm → Storage → ℕ
epoch_of alarm st = max 1 (read_emergency_epoch alarm st)

abbrev pub signed : Alarm → Storage → ℕ → ℕ
signed alarm st v = if leb (epoch_of alarm st) (read_emergency_sig_epoch alarm v st) then 1 else 0

-- How many of the validators have signed in this epoch.
abbrev pub signers : Alarm → List ℕ → Storage → ℕ
signers alarm vs st = sum_of (signed alarm st) vs

-- The signatures that are asked for.
abbrev pub threshold : Storage → ℕ
threshold st =
    emergency_pause_threshold (stored_config (ensure_config_initialized st).1)
      (read_validator_count st)

pub config_frame : (st : Storage) (p : Slot) → IsUnconfigured p → (governance_config st).1 p ≡ st p
unfolding governance_config
config_frame st p h = ground (arith, ensure_frame st p h)

pub config-ok :
    (st : Storage) → (governance_config st).0 ≡ ok (stored_config (ensure_config_initialized st).1)
unfolding governance_config ensure_config_initialized
config-ok st = ground arith

-- The configuration does not hang on the slots of the signatures.
pub bps_same :
    (st st' : Storage)
    → st' slot_gov_config_initialized ≡ st slot_gov_config_initialized
    → st' (slot_gov_config ConfigKey.emergency_pause_bps)
      ≡ st (slot_gov_config ConfigKey.emergency_pause_bps)
    → read_config_u32 ConfigKey.emergency_pause_bps (ensure_config_initialized st').1
      ≡ read_config_u32 ConfigKey.emergency_pause_bps (ensure_config_initialized st).1
unfolding ensure_config_initialized
bps_same st st' h k = ground arith

-- The storage as a signature leaves it, before the configuration is read.
abbrev pub sign_writes : Alarm → ℕ → Storage → Storage
sign_writes alarm caller st =
    store (slot_sig_count alarm) ((read_emergency_sig_count alarm st + 1) % 2 ^ 64)
      (store (slot_sig_epoch alarm caller) (epoch_of alarm st) (start_epoch alarm st).1)

pub sign-cases :
    (alarm : Alarm) (caller : ℕ) (st : Storage) (reached : Bool)
    → (sign alarm caller st).0 ≡ ok reached
    → (read_emergency_sig_epoch alarm caller st < epoch_of alarm st)
      × ((sign alarm caller st).1 ≡ (governance_config (sign_writes alarm caller st)).1)
      × (reached
          ≡ leb
              (emergency_pause_threshold
                (stored_config (ensure_config_initialized (sign_writes alarm caller st)).1)
                (read_validator_count st))
              ((read_emergency_sig_count alarm st + 1) % 2 ^ 64))
unfolding sign start_epoch
sign-cases pausing caller st reached h = ground (arith, config-ok (sign_writes pausing caller st))
sign-cases resuming caller st reached h = ground (arith, config-ok (sign_writes resuming caller st))

-- What a signature changes.
abbrev pub IsSignedBy : Alarm → ℕ → ℕ → Storage → Storage → Type 0
IsSignedBy alarm caller v st st' =
    (read_emergency_epoch alarm st' ≡ epoch_of alarm st)
    × (read_emergency_sig_epoch alarm v st'
        ≡ (if v == caller then epoch_of alarm st else read_emergency_sig_epoch alarm v st))
    × (read_emergency_sig_count alarm st' ≡ (read_emergency_sig_count alarm st + 1) % 2 ^ 64)

pub start_epoch_slots :
    (alarm : Alarm) (st : Storage) (p : Slot)
    → (read_emergency_epoch alarm (start_epoch alarm st).1 ≡ epoch_of alarm st)
      × ((start_epoch alarm st).1 p ≡ (
          if slot_eq p (slot_epoch alarm)
          then (start_epoch alarm st).1 (slot_epoch alarm)
          else st p))
unfolding start_epoch
start_epoch_slots pausing st p = ground arith
start_epoch_slots resuming st p = ground arith

writes-IsSignedBy :
    (alarm : Alarm) (caller v : ℕ) (st : Storage)
    → IsSignedBy alarm caller v st (governance_config (sign_writes alarm caller st)).1
writes-IsSignedBy pausing caller v st =
    let wrote = sign_writes pausing caller st in
    ground (
      arith,
      config_frame wrote (slot_epoch pausing) (ground arith),
      config_frame wrote (slot_sig_epoch pausing v) (ground arith),
      config_frame wrote (slot_sig_count pausing) (ground arith),
      start_epoch_slots pausing st (slot_sig_epoch pausing v),
    )
writes-IsSignedBy resuming caller v st =
    let wrote = sign_writes resuming caller st in
    ground (
      arith,
      config_frame wrote (slot_epoch resuming) (ground arith),
      config_frame wrote (slot_sig_epoch resuming v) (ground arith),
      config_frame wrote (slot_sig_count resuming) (ground arith),
      start_epoch_slots resuming st (slot_sig_epoch resuming v),
    )

pub sign-IsSignedBy :
    (alarm : Alarm) (caller v : ℕ) (st : Storage) (reached : Bool)
    → (sign alarm caller st).0 ≡ ok reached
    → IsSignedBy alarm caller v st (sign alarm caller st).1
sign-IsSignedBy alarm caller v st reached h =
    let (_, same, _) = sign-cases alarm caller st reached h in
    subst (IsSignedBy alarm caller v st) (sym same) (writes-IsSignedBy alarm caller v st)

-- Signing leaves the pause as it is, and the threshold.
pub sign_paused :
    (caller : ℕ) (st : Storage)
    → is_paused (governance_config (sign_writes pausing caller st)).1 ≡ is_paused st
sign_paused caller st = ground (
  arith,
  config_frame (sign_writes pausing caller st) slot_gov_paused (ground arith),
  start_epoch_slots pausing st slot_gov_paused,
)

pub threshold_same :
    (caller : ℕ) (st : Storage)
    → emergency_pause_threshold
        (stored_config (ensure_config_initialized (sign_writes pausing caller st)).1)
        (read_validator_count st)
      ≡ threshold st
threshold_same caller st =
    ap (λ bps. div_ceil (read_validator_count st * bps) 10_000 % 2 ^ 64)
      (bps_same st (sign_writes pausing caller st)
        (ground (arith, start_epoch_slots pausing st slot_gov_config_initialized))
        (ground
          (arith, start_epoch_slots pausing st (slot_gov_config ConfigKey.emergency_pause_bps))))
