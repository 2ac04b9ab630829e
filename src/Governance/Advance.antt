-- ===== src/Governance/Advance.antt =====
-- What the step from Pending to Active does, and what it leaves alone.
use call_node.Prelude.{ℕ, ◌≡◌, ◌≢◌, ◌&&◌, arith, leb, ◌==◌, if◌then◌else◌, ok}
use call_node.Storage.{
  Slot, Storage, store, family, ProposalKey, ConfigKey, slot_gov_proposal, slot_gov_config,
  slot_gov_config_initialized, proposal_code,
}
use call_node.Governance.Reads.{read_proposal_status, read_proposal_u64}
use call_node.Governance.Submission.{ensure_config_initialized, compute_and_set_quorum}
use call_node.Governance.Voting.{auto_advance}

-- A slot that is none of the configuration's.
abbrev pub IsUnconfigured : Slot → Type 0
IsUnconfigured p =
    (family p ≢ family (slot_gov_config ConfigKey.timelock))
    × (family p ≢ family slot_gov_config_initialized)

pub ensure_frame :
    (st : Storage) (p : Slot) → IsUnconfigured p → (ensure_config_initialized st).1 p ≡ st p
unfolding ensure_config_initialized
ensure_frame st p h = ground arith

pub quorum_frame :
    (id : ℕ) (st : Storage) (p : Slot)
    → IsUnconfigured p
    → family p ≢ family (slot_gov_proposal id ProposalKey.status)
    → (compute_and_set_quorum id st).1 p ≡ st p
unfolding compute_and_set_quorum
quorum_frame id st p h k = ground (arith, ensure_frame st p h)

pub quorum_proposal :
    (id q : ℕ) (k : ProposalKey) (st : Storage)
    → proposal_code k ≢ proposal_code ProposalKey.quorum_required
    → (compute_and_set_quorum id st).1 (slot_gov_proposal q k) ≡ st (slot_gov_proposal q k)
unfolding compute_and_set_quorum
quorum_proposal id q k st h = ground (arith, ensure_frame st (slot_gov_proposal q k) (ground arith))

pub auto_advance-ok : (id block : ℕ) (st : Storage) → (auto_advance id block st).0 ≡ ok tt
unfolding auto_advance
auto_advance-ok id block st = ground arith

pub auto_advance_frame :
    (id block : ℕ) (st : Storage) (p : Slot)
    → IsUnconfigured p
    → family p ≢ family (slot_gov_proposal id ProposalKey.status)
    → (auto_advance id block st).1 p ≡ st p
unfolding auto_advance
auto_advance_frame id block st p h k =
    ground (arith, quorum_frame id (store (slot_gov_proposal id ProposalKey.status) 1 st) p h k)

pub auto_advance_proposal :
    (id q block : ℕ) (k : ProposalKey) (st : Storage)
    → proposal_code k ≢ proposal_code ProposalKey.quorum_required
    → proposal_code k ≢ proposal_code ProposalKey.status
    → (auto_advance id block st).1 (slot_gov_proposal q k) ≡ st (slot_gov_proposal q k)
unfolding auto_advance
auto_advance_proposal id q block k st h n =
    ground (arith, quorum_proposal id q k (store (slot_gov_proposal id ProposalKey.status) 1 st) h)

-- The statuses afterwards.
abbrev pub status_after : ℕ → ℕ → Storage → ℕ → ℕ
status_after id block st q =
    if q == id
      && (read_proposal_status id st == 0
          && leb (read_proposal_u64 id ProposalKey.start_block st) block)
    then 1
    else read_proposal_status q st

pub auto_advance_status :
    (id q block : ℕ) (st : Storage)
    → read_proposal_status q (auto_advance id block st).1 ≡ status_after id block st q
unfolding auto_advance
auto_advance_status id q block st = ground (
  arith,
  quorum_proposal id q ProposalKey.status (store (slot_gov_proposal id ProposalKey.status) 1 st),
)
