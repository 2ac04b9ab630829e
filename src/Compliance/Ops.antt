-- ===== src/Compliance/Ops.antt =====
-- crates/compliance/src/lib.rs: the operations of `ComplianceStorage`.
use call_node.Prelude.{ℕ, Bool, not, ◌==◌, if◌then◌else◌}
use call_node.Storage.{
  M, Storage, load, gets, throw_if, write, ◌>>=◌, ◌>>◌, slot_compliance, slot_compliance_admin,
  u256_to_u8, u256_to_address, u8_to_u256, address_to_u256,
}

pub data ComplianceError : Type 0 where
  not_governance invalid_status : ComplianceError

abbrev pub governance_address : ℕ
governance_address = 0x203

abbrev pub read_status : ℕ → Storage → ℕ
read_status addr st = u256_to_u8 (load (slot_compliance addr) st)

abbrev pub read_admin : Storage → ℕ
read_admin st = u256_to_address (load slot_compliance_admin st)

abbrev pub check_compliance : ℕ → Storage → Bool
check_compliance target st = read_status target st == 0

unfoldable pub update_compliance : ℕ → ℕ → ℕ → M ComplianceError (Unit {0})
update_compliance target status_u8 caller = do
  throw_if (not (caller == governance_address)) not_governance
  write (slot_compliance target) (u8_to_u256 status_u8)

unfoldable pub set_admin : ℕ → ℕ → M ComplianceError (Unit {0})
set_admin new_admin caller = do
  current_admin ← gets read_admin
  let expected = if current_admin == 0 then governance_address else current_admin
  throw_if (not (caller == expected)) not_governance
  write slot_compliance_admin (address_to_u256 new_admin)
