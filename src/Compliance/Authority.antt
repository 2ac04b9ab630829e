-- ===== src/Compliance/Authority.antt =====
-- Who can change the compliance flags, and how a governance proposal does.
use call_node.Prelude.{ℕ, ◌≤◌, ◌≡◌, ◌≢◌, refl, ◌∙◌, ap, List, [], ◌∷◌, All, arith, ◌==◌, ok}
use call_node.Storage.{Storage}
use call_node.Governance.Effects.{compliance_update, number_at}
use call_node.Compliance.Ops.{
  governance_address, read_admin, check_compliance, update_compliance, set_admin,
}

-- A call with its caller.
pub data Call : Type 0 where
  update : (target status caller : ℕ) → Call
  appoint : (new_admin caller : ℕ) → Call

abbrev pub caller_of : Call → ℕ
caller_of (update target status caller) = caller
caller_of (appoint new_admin caller) = caller

unfoldable pub after_call : Call → Storage → Storage
after_call (update target status caller) st = (update_compliance target status caller st).1
after_call (appoint new_admin caller) st = (set_admin new_admin caller st).1

unfoldable pub after_calls : List Call → Storage → Storage
unfolding after_call
after_calls [] st = st
after_calls (c ∷ cs) st = after_calls cs (after_call c st)

-- The caller is neither the governance nor the admin.
abbrev pub IsOutsider : ℕ → Call → Type 0
IsOutsider admin c = (caller_of c ≢ governance_address) × (caller_of c ≢ admin)

outsider_call : (c : Call) (st : Storage) → IsOutsider (read_admin st) c → after_call c st ≡ st
unfolding after_call update_compliance set_admin
outsider_call (update target status caller) st h = ground arith
outsider_call (appoint new_admin caller) st h = ground arith

-- Calls by others than the governance and the admin change nothing, however many they are.
pub outsiders_powerless :
    (cs : List Call) (st : Storage) → All (IsOutsider (read_admin st)) cs → after_calls cs st ≡ st
unfolding after_calls
outsiders_powerless [] st h = refl
outsiders_powerless (c ∷ cs) st h =
    let same = outsider_call c st h.0 in ap (after_calls cs) same ∙ outsiders_powerless cs st h.1

-- A ComplianceUpdate proposal that is carried out does what the governance's own call of
-- `update_compliance` would, with a status of 0 or 1; the target passes the check where it is 0.
pub compliance_update-update_compliance :
    (bytes : List ℕ) (st : Storage)
    → (compliance_update bytes st).0 ≡ ok tt
    → let target = number_at 12 32 bytes in
      let status = number_at 63 64 bytes in
      (status ≤ 1)
      × ((compliance_update bytes st).1 ≡ (update_compliance target status governance_address st).1)
      × (check_compliance target (compliance_update bytes st).1 ≡ (status == 0))
unfolding compliance_update update_compliance
compliance_update-update_compliance bytes st h = ground arith
