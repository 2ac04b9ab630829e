-- ===== src/Fork/Settled.antt =====
-- The upgrades of a manager of crates/consensus/src/fork.rs as settled at a height.
use call_node.Prelude.{
  ℕ, ◌≤◌, ◌<◌, ◌≡◌, sym, ap, subst, true, false, List, [], ◌∷◌, Option, none, some, arith, ltb,
  if◌then◌else◌, inl, inr, All, Bool-cases, ltb→lt,
}
use mathlib.Core.Bool.{}
use call_node.Fork.Types.{ProtocolVersion, UpgradeEntry, ForkManager}
use call_node.Fork.Upgrades.{
  apply_pending, clear_last, clear_upgrade_readiness, skipped_at, skip_versions, insert_by_height,
  schedule_upgrade, check_upgrades_at_height, version_at_height,
}
use call_node.Fork.Scheduling.{IsSorted, schedule_upgrade_sorted, insert_by_height-IsSortedFrom}
use call_node.Fork.Activation.{
  IsLater, IsSettled, Choice, first_choice, second_choice, apply_pending-IsSortedFrom,
  apply_pending-IsSettled, IsSettled-restart, IsSettled-version_after,
}

insert_by_height-IsLater :
    (height : ℕ) (e : UpgradeEntry) (es : List UpgradeEntry)
    → IsLater height e
    → All (IsLater height) es
    → All (IsLater height) (insert_by_height e es)
insert_by_height-IsLater height e [] h k = (h, tt)
insert_by_height-IsLater height e (d ∷ ds) h k =
    elim (Bool-cases (ltb e.activation_height d.activation_height)) [
      | inl before ↦ rw before (h, k)
      | inr after ↦ rw after (k.0, insert_by_height-IsLater height e ds h k.1)
    ]

-- An entry above a later one is not among those applied.
above_is_later :
    (height : ℕ) (e d : UpgradeEntry)
    → ltb e.activation_height d.activation_height ≡ true
    → height < e.activation_height
    → (A B : Type 0) → Choice d.applied ((d.activation_height ≤ height) × A) B
    → d.applied ≡ false
above_is_later height e d before h A B k = elim (Bool-cases d.applied) [
  | inl done ↦ absurd (
      omega (
        arith,
        h,
        (first_choice _ _ d.applied done k).0,
        ltb→lt e.activation_height d.activation_height before,
      ))
  | inr fresh ↦ fresh
]

insert_by_height-IsSettled :
    (height : ℕ) (seen current : ProtocolVersion) (e : UpgradeEntry) (es : List UpgradeEntry)
    → IsLater height e
    → IsSettled height seen current es
    → IsSettled height seen current (insert_by_height e es)
insert_by_height-IsSettled height seen current e [] h k = rw h.0 (h.1, (k, tt))
insert_by_height-IsSettled height seen current e (d ∷ ds) h k =
    elim (Bool-cases (ltb e.activation_height d.activation_height)) [
      | inl before ↦
          let fresh = above_is_later height e d before h.1 _ _ k in
          let now = second_choice _ _ d.applied fresh k in
          rw (before, h.0) (h.1, (now.1.0, ((fresh, now.0), now.1.1)))
      | inr after ↦ elim (Bool-cases d.applied) [
        | inl done ↦
            let now = first_choice _ _ d.applied done k in
            rw (after, done)
              (now.0, insert_by_height-IsSettled height d.version current e ds h now.1)
        | inr fresh ↦
            let now = second_choice _ _ d.applied fresh k in
            rw (after, fresh) (now.0, (now.1.0, insert_by_height-IsLater height e ds h now.1.1))
      ]
    ]

-- The upgrades are settled at the height, and readiness is not asked for.
abbrev pub IsSettledAt : ℕ → ForkManager → Type 0
IsSettledAt height m =
    (m.require_validator_readiness ≡ false)
    × (IsSorted m.scheduled_upgrades
        × IsSettled height m.current_version m.current_version m.scheduled_upgrades)

clear_last-IsSettledAt :
    (height : ℕ) (last : Option ProtocolVersion) (m : ForkManager)
    → IsSettledAt height m
    → IsSettledAt height (clear_last last m)
unfolding clear_last clear_upgrade_readiness
clear_last-IsSettledAt height none m k = k
clear_last-IsSettledAt height (some v) m k = k

skipped_at_none :
    (m : ForkManager) (height : ℕ)
    → m.require_validator_readiness ≡ false
    → skipped_at m height ≡ []
unfolding skipped_at
skipped_at_none m height r =
    ap (λ b. if b then skip_versions m height m.scheduled_upgrades else []) r

pub check_upgrades_at_height-IsSettledAt :
    (m : ForkManager) (height height' : ℕ)
    → height ≤ height'
    → IsSettledAt height m
    → IsSettledAt height' (check_upgrades_at_height m height').1
unfolding check_upgrades_at_height
check_upgrades_at_height-IsSettledAt m height height' h k = rw (skipped_at_none m height' k.0) (
    clear_last-IsSettledAt height' out.1.1
      (record m { scheduled_upgrades = out.0; current_version = out.1.0 })
      (
        k.0,
        (
          apply_pending-IsSortedFrom height' 0 m.current_version none m.scheduled_upgrades k.1.0,
          IsSettled-restart height' m.current_version _ _ (
              apply_pending-IsSettled height height' 0 m.current_version m.current_version none
                m.scheduled_upgrades h k.1.0 k.1.1),
        ),
      ))
  where
    out : List UpgradeEntry × (ProtocolVersion × Option ProtocolVersion)
    out = apply_pending [] height' m.current_version none m.scheduled_upgrades

pub schedule_upgrade-IsSettledAt :
    (m : ForkManager) (height : ℕ) (e : UpgradeEntry)
    → IsLater height e
    → IsSettledAt height m
    → IsSettledAt height (schedule_upgrade m e)
unfolding schedule_upgrade
schedule_upgrade-IsSettledAt m height e h k = (
  k.0,
  subst (λ es. IsSorted es × IsSettled height m.current_version m.current_version es)
      (sym (schedule_upgrade_sorted m e k.1.0))
      (
        insert_by_height-IsSortedFrom 0 e m.scheduled_upgrades (omega arith) k.1.0,
        insert_by_height-IsSettled height m.current_version m.current_version e m.scheduled_upgrades
            h k.1.1,
      ),
)

-- Where the upgrades are settled, the expected version is the current one.
pub IsSettledAt-version_at_height :
    (m : ForkManager) (height : ℕ)
    → IsSettledAt height m
    → version_at_height m height ≡ m.current_version
unfolding version_at_height
IsSettledAt-version_at_height m height k =
    IsSettled-version_after height m.current_version m.current_version m.scheduled_upgrades k.1.1
