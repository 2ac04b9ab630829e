-- ===== src/Compliance/Tests.antt =====
-- Calls of the compliance operations by outsiders and by the governance.
use call_node.Prelude.{
  ℕ, ◌≤◌, ◌≡◌, refl, List, [], ◌∷◌, ◌++◌, replicate, arith, ◌==◌, from_be_bytes, from_le_bytes,
}
use call_node.Storage.{Storage, store, empty_storage, slot_compliance_admin}
use call_node.Governance.Effects.{compliance_update, number_at}
use call_node.Compliance.Ops.{governance_address, update_compliance, check_compliance}
use call_node.Compliance.Authority.{
  Call, after_calls, outsiders_powerless, compliance_update-update_compliance,
}

-- Account 9 is the admin.
abbrev opening : Storage
opening = store slot_compliance_admin 9 empty_storage

abbrev intrusions : List Call
intrusions = Call.update 5 3 7 ∷ Call.appoint 7 7 ∷ []

outsiders_powerless_example : after_calls intrusions opening ≡ opening
outsiders_powerless_example =
    outsiders_powerless intrusions opening
      ((ground arith, ground arith), ((ground arith, ground arith), tt))

-- Address 5, to be restricted.
abbrev restriction : List ℕ
restriction = replicate 31 0 ++ (5 ∷ replicate 31 0 ++ (1 ∷ []))

compliance_update-update_compliance_example :
    let target = number_at 12 32 restriction in
    let status = number_at 63 64 restriction in
    (status ≤ 1)
    × ((compliance_update restriction opening).1
        ≡ (update_compliance target status governance_address opening).1)
    × (check_compliance target (compliance_update restriction opening).1 ≡ (status == 0))
unfolding compliance_update number_at from_be_bytes from_le_bytes
compliance_update-update_compliance_example =
    compliance_update-update_compliance restriction opening refl
