-- ===== src/Fork/Versions.antt =====
-- A node that checks the upgrades of crates/consensus/src/fork.rs at the heights it reaches.
use call_node.Prelude.{
  ℕ, ◌+◌, ◌%◌, ◌^◌, ◌≤◌, ◌<◌, ◌≡◌, ◌↔◌, refl, sym, ◌∙◌, arith, Bool-cases, contains_key, nat_key,
  ok, inl, inr, Option, none, some, ltb,
}
use mathlib.Core.Bool.{false≢true}
use call_node.Fork.Types.{ProtocolVersion, UpgradeEntry, ForkManager, version_beq, version_beq_iff}
use call_node.Fork.Upgrades.{
  new, register_validator, schedule_upgrade, schedule_governance_upgrade, check_upgrades_at_height,
  validate_block_version, set_timelock_blocks, signal_upgrade_readiness, clear_last,
  clear_upgrade_readiness, is_scheduled,
}
use call_node.Fork.Activation.{IsLater}
use call_node.Fork.Settled.{
  IsSettledAt, check_upgrades_at_height-IsSettledAt, schedule_upgrade-IsSettledAt,
  IsSettledAt-version_at_height,
}

-- The manager of a node that has reached a height: upgrades are scheduled for later heights, by
-- governance without overflow of the height's width, and checked at heights that do not fall.
pub data Reached : ℕ → ForkManager → Type 0 where
  start : (v : ProtocolVersion) (n : ℕ) → Reached 0 (new v n)
  register :
      {height : ℕ} {m : ForkManager} (id key : ℕ)
      → Reached height m
      → Reached height (register_validator m id key)
  schedule :
      {height : ℕ} {m : ForkManager} (e : UpgradeEntry)
      → IsLater height e
      → Reached height m
      → Reached height (schedule_upgrade m e)
  govern :
      {height : ℕ} {m : ForkManager} (v : ProtocolVersion) (activation proposal : ℕ)
      → height + m.timelock_blocks < 2 ^ 64
      → Reached height m
      → Reached height (schedule_governance_upgrade m v activation proposal height).1
  set_timelock :
      {height : ℕ} {m : ForkManager} (blocks : ℕ)
      → Reached height m
      → Reached height (set_timelock_blocks m blocks)
  signal :
      {height : ℕ} {m : ForkManager} (id : ℕ) (v : ProtocolVersion)
      → Reached height m
      → Reached height (signal_upgrade_readiness m id v).1
  check :
      {height : ℕ} {m : ForkManager} (next : ℕ)
      → height ≤ next
      → Reached height m
      → Reached next (check_upgrades_at_height m next).1

clear_last_keeps :
    (last : Option ProtocolVersion) (m : ForkManager)
    → (clear_last last m).timelock_blocks ≡ m.timelock_blocks
unfolding clear_last clear_upgrade_readiness
clear_last_keeps none m = refl
clear_last_keeps (some v) m = refl

check_keeps_timelock :
    (m : ForkManager) (height : ℕ)
    → (check_upgrades_at_height m height).1.timelock_blocks ≡ m.timelock_blocks
unfolding check_upgrades_at_height
check_keeps_timelock m height = clear_last_keeps _ _

-- The timelock has its floor in every manager that is reached.
pub Reached-timelock : (height : ℕ) (m : ForkManager) → Reached height m → 100 ≤ m.timelock_blocks
unfolding new register_validator schedule_upgrade schedule_governance_upgrade set_timelock_blocks
    signal_upgrade_readiness
Reached-timelock height m (start v n) = omega arith
Reached-timelock height m (register id key r) = Reached-timelock _ _ r
Reached-timelock height m (schedule e l r) = Reached-timelock _ _ r
Reached-timelock height m (govern v a p l r) = ground (arith, Reached-timelock _ _ r)
Reached-timelock height m (set_timelock b r) = omega arith
Reached-timelock height m (signal id v r) = ground (arith, Reached-timelock _ _ r)
Reached-timelock height m (check next h r) =
    omega (arith, check_keeps_timelock _ next, Reached-timelock _ _ r)

-- What governance schedules lies above the current height.
schedule_governance_upgrade-IsSettledAt :
    (m : ForkManager) (height : ℕ) (v : ProtocolVersion) (activation proposal : ℕ)
    → 100 ≤ m.timelock_blocks
    → height + m.timelock_blocks < 2 ^ 64
    → IsSettledAt height m
    → IsSettledAt height (schedule_governance_upgrade m v activation proposal height).1
unfolding schedule_governance_upgrade
schedule_governance_upgrade-IsSettledAt m height v activation proposal t l k =
    elim (Bool-cases (ltb activation ((height + m.timelock_blocks) % 2 ^ 64))) [
      | inl early ↦ rw early k
      | inr late ↦ rw late (schedule_upgrade-IsSettledAt m height _ (refl, ground arith) k)
    ]

signal_keeps :
    (m : ForkManager) (height id : ℕ) (v : ProtocolVersion)
    → IsSettledAt height m
    → IsSettledAt height (signal_upgrade_readiness m id v).1
unfolding signal_upgrade_readiness
signal_keeps m height id v k = elim (Bool-cases (contains_key id m.validator_keys)) [
  | inl known ↦ elim (Bool-cases (is_scheduled v m.scheduled_upgrades)) [
    | inl scheduled ↦ rw (known, scheduled) k
    | inr unscheduled ↦ rw (known, unscheduled) k
  ]
  | inr unknown ↦ rw unknown k
]

pub Reached-IsSettledAt : (height : ℕ) (m : ForkManager) → Reached height m → IsSettledAt height m
unfolding new register_validator set_timelock_blocks
Reached-IsSettledAt height m (start v n) = (refl, (tt, refl))
Reached-IsSettledAt height m (register id key r) = Reached-IsSettledAt _ _ r
Reached-IsSettledAt height m (schedule e l r) =
    schedule_upgrade-IsSettledAt _ height e l (Reached-IsSettledAt _ _ r)
Reached-IsSettledAt height m (govern v a p l r) =
    schedule_governance_upgrade-IsSettledAt _ height v a p (Reached-timelock _ _ r) l
      (Reached-IsSettledAt _ _ r)
Reached-IsSettledAt height m (set_timelock b r) = Reached-IsSettledAt _ _ r
Reached-IsSettledAt height m (signal id v r) =
    signal_keeps _ height id v (Reached-IsSettledAt _ _ r)
Reached-IsSettledAt height m (check next h r) =
    check_upgrades_at_height-IsSettledAt _ _ next h (Reached-IsSettledAt _ _ r)

-- A node accepts a block at the height it has reached exactly when the block has the node's
-- current version, whatever was scheduled on the way.
pub validate_block_version_iff :
    (m : ForkManager) (height : ℕ) (v : ProtocolVersion)
    → Reached height m
    → (validate_block_version m height v ≡ ok tt) ↔ (v ≡ m.current_version)
unfolding validate_block_version
validate_block_version_iff m height v r =
    rw (IsSettledAt-version_at_height m height (Reached-IsSettledAt height m r))
      (elim (Bool-cases (version_beq v m.current_version)) [
        | inl same ↦ rw same ((λ _. (version_beq_iff v m.current_version).0 same), (λ _. refl))
        | inr differ ↦ rw differ (
          (λ bad. absurd (ground (arith, bad))),
          (λ e. absurd (false≢true (sym differ ∙ (version_beq_iff v m.current_version).1 e))),
        )
      ])
