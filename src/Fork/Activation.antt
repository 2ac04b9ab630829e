-- ===== src/Fork/Activation.antt =====
-- The upgrades that crates/consensus/src/fork.rs has applied, against those due by height.
use call_node.Prelude.{
  ℕ, ◌≤◌, ◌<◌, ◌≡◌, refl, sym, ◌∙◌, subst, Bool, true, false, List, [], ◌∷◌, Option, some, arith,
  leb, inl, inr, All, Bool-cases, le→leb,
}
use mathlib.Core.Bool.{false≢true}
use call_node.Fork.Types.{ProtocolVersion, UpgradeEntry}
use call_node.Fork.Upgrades.{apply_pending, is_pending, version_after}
use call_node.Fork.Scheduling.{IsSortedFrom}

abbrev pub IsLater : ℕ → UpgradeEntry → Type 0
IsLater height e = (e.applied ≡ false) × (height < e.activation_height)

abbrev pub Choice : Bool → Type 0 → Type 0 → Type 0
Choice true A B = A
Choice false A B = B

-- The entries after a check at the height that left the version `current`: those applied, the
-- last of them with that version, then those still to come. `seen` is the version so far.
abbrev pub IsSettled : ℕ → ProtocolVersion → ProtocolVersion → List UpgradeEntry → Type 0
IsSettled height seen current [] = seen ≡ current
IsSettled height seen current (e ∷ es) =
    Choice e.applied ((e.activation_height ≤ height) × IsSettled height e.version current es)
      ((height < e.activation_height) × ((seen ≡ current) × All (IsLater height) es))

pub first_choice : (A B : Type 0) (b : Bool) → b ≡ true → Choice b A B → A
first_choice A B true h k = k
first_choice A B false h k = absurd (false≢true h)

pub second_choice : (A B : Type 0) (b : Bool) → b ≡ false → Choice b A B → B
second_choice A B true h k = absurd (false≢true (sym h))
second_choice A B false h k = k

apply_pending_later :
    (height : ℕ) (v : ProtocolVersion) (last : Option ProtocolVersion) (es : List UpgradeEntry)
    → All (IsLater height) es
    → apply_pending [] height v last es ≡ (es, (v, last))
unfolding apply_pending
apply_pending_later height v last [] h = refl
apply_pending_later height v last (e ∷ es) h =
    rw (not_pending, apply_pending_later height v last es h.1) refl
  where
    not_pending : is_pending height e ≡ false
    not_pending = ground arith

IsSortedFrom-IsLater :
    (height lo : ℕ) (es : List UpgradeEntry)
    → height < lo
    → IsSortedFrom lo es
    → All (λ d. d.applied ≡ false) es
    → All (IsLater height) es
IsSortedFrom-IsLater height lo [] h s k = tt
IsSortedFrom-IsLater height lo (e ∷ es) h s k =
    ((k.0, omega arith), IsSortedFrom-IsLater height e.activation_height es (omega arith) s.1 k.1)

-- The second loop over entries none of which is applied.
apply_pending_fresh :
    (height lo : ℕ) (v : ProtocolVersion) (last : Option ProtocolVersion) (es : List UpgradeEntry)
    → IsSortedFrom lo es
    → All (λ d. d.applied ≡ false) es
    → let (entries, (current, _)) = apply_pending [] height v last es in
      IsSettled height v current entries
unfolding apply_pending
apply_pending_fresh height lo v last [] s k = refl
apply_pending_fresh height lo v last (e ∷ es) s k =
    elim (Bool-cases (leb e.activation_height height)) [
      | inl due ↦
          rw (k.0, due)
            (
              ground arith,
              apply_pending_fresh height e.activation_height e.version (some e.version) es s.1 k.1,
            )
      | inr later ↦
          let all_later =
            IsSortedFrom-IsLater height e.activation_height es (ground arith) s.1 k.1 in
          rw (k.0, later, apply_pending_later height v last es all_later)
            (ground arith, (refl, all_later))
    ]

All-unapplied :
    (height : ℕ) (es : List UpgradeEntry)
    → All (IsLater height) es
    → All (λ d. d.applied ≡ false) es
All-unapplied height [] k = tt
All-unapplied height (e ∷ es) k = (k.0.0, All-unapplied height es k.1)

-- The second loop at a height no lower than the last one checked.
pub apply_pending-IsSettled :
    (height height' lo : ℕ) (seen current : ProtocolVersion) (last : Option ProtocolVersion)
    (es : List UpgradeEntry)
    → height ≤ height'
    → IsSortedFrom lo es
    → IsSettled height seen current es
    → let (entries, (current', _)) = apply_pending [] height' current last es in
      IsSettled height' seen current' entries
unfolding apply_pending
apply_pending-IsSettled height height' lo seen current last [] h s k = k
apply_pending-IsSettled height height' lo seen current last (e ∷ es) h s k =
    elim (Bool-cases e.applied) [
      | inl done ↦
          let before = first_choice _ _ e.applied done k in
          rw done (
            omega arith,
            apply_pending-IsSettled height height' e.activation_height e.version current last es h
                s.1 before.1,
          )
      | inr fresh ↦
          let before = second_choice _ _ e.applied fresh k in
          subst
            (λ v.
              let (entries, (current', _)) = apply_pending [] height' current last (e ∷ es) in
              IsSettled height' v current' entries)
            (sym before.1.0)
            (apply_pending_fresh height' lo current last (e ∷ es) s
              (fresh, All-unapplied height es before.1.1))
    ]

pub apply_pending-IsSortedFrom :
    (height lo : ℕ) (current : ProtocolVersion) (last : Option ProtocolVersion)
    (es : List UpgradeEntry)
    → IsSortedFrom lo es
    → IsSortedFrom lo (apply_pending [] height current last es).0
unfolding apply_pending
apply_pending-IsSortedFrom height lo current last [] s = tt
apply_pending-IsSortedFrom height lo current last (e ∷ es) s =
    elim (Bool-cases (is_pending height e)) [
      | inl due ↦ rw due (
        s.0,
        apply_pending-IsSortedFrom height e.activation_height e.version (some e.version) es s.1,
      )
      | inr other ↦
          rw other (s.0, apply_pending-IsSortedFrom height e.activation_height current last es s.1)
    ]

version_after_later :
    (height : ℕ) (v : ProtocolVersion) (es : List UpgradeEntry)
    → All (IsLater height) es
    → version_after height v es ≡ v
version_after_later height v [] h = refl
version_after_later height v (e ∷ es) h = rw (later, version_after_later height v es h.1) refl
  where
    later : leb e.activation_height height ≡ false
    later = ground arith

pub IsSettled-version_after :
    (height : ℕ) (seen current : ProtocolVersion) (es : List UpgradeEntry)
    → IsSettled height seen current es
    → version_after height seen es ≡ current
IsSettled-version_after height seen current [] k = k
IsSettled-version_after height seen current (e ∷ es) k = elim (Bool-cases e.applied) [
  | inl done ↦
      let now = first_choice _ _ e.applied done k in
      rw (le→leb e.activation_height height now.0)
        (IsSettled-version_after height e.version current es now.1)
  | inr fresh ↦
      let now = second_choice _ _ e.applied fresh k in
      version_after_later height seen (e ∷ es) ((fresh, now.0), now.1.1) ∙ now.1.0
]

pub IsSettled-restart :
    (height : ℕ) (seen current : ProtocolVersion) (es : List UpgradeEntry)
    → IsSettled height seen current es
    → IsSettled height current current es
IsSettled-restart height seen current [] k = refl
IsSettled-restart height seen current (e ∷ es) k = elim (Bool-cases e.applied) [
  | inl done ↦ rw done (first_choice _ _ e.applied done k)
  | inr fresh ↦ let now = second_choice _ _ e.applied fresh k in rw fresh (now.0, (refl, now.1.1))
]
