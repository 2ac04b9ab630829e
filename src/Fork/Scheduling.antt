-- ===== src/Fork/Scheduling.antt =====
-- What crates/consensus/src/fork.rs keeps of its list of upgrades: the order by height.
use call_node.Prelude.{
  ℕ, ◌≤◌, ◌≡◌, refl, sym, ap, ◌∙◌, subst, List, [], ◌∷◌, ◌++◌, arith, ltb, inl, inr, All,
  Bool-cases,
}
use mathlib.Core.List.{Perm, append-nil, append_assoc, perm_middle}
use mathlib.Core.List.Perm
use call_node.Fork.Types.{UpgradeEntry, ForkManager}
use call_node.Fork.Upgrades.{insert_by_height, sort_into, sort_by_height, schedule_upgrade}

-- The heights do not fall, from the bound on.
abbrev pub IsSortedFrom : ℕ → List UpgradeEntry → Type 0
IsSortedFrom lo [] = Unit
IsSortedFrom lo (e ∷ es) = (lo ≤ e.activation_height) × IsSortedFrom e.activation_height es

abbrev pub IsSorted : List UpgradeEntry → Type 0
IsSorted es = IsSortedFrom 0 es

pub insert_by_height-IsSortedFrom :
    (lo : ℕ) (e : UpgradeEntry) (es : List UpgradeEntry)
    → lo ≤ e.activation_height
    → IsSortedFrom lo es
    → IsSortedFrom lo (insert_by_height e es)
insert_by_height-IsSortedFrom lo e [] h s = (h, tt)
insert_by_height-IsSortedFrom lo e (d ∷ ds) h s =
    elim (Bool-cases (ltb e.activation_height d.activation_height)) [
      | inl before ↦ rw before (h, (ground arith, s.1))
      | inr after ↦
          rw after (s.0, insert_by_height-IsSortedFrom d.activation_height e ds (ground arith) s.1)
    ]

pub sort_into-IsSorted :
    (sorted es : List UpgradeEntry) → IsSorted sorted → IsSorted (sort_into sorted es)
sort_into-IsSorted sorted [] s = s
sort_into-IsSorted sorted (e ∷ es) s =
    sort_into-IsSorted (insert_by_height e sorted) es
      (insert_by_height-IsSortedFrom 0 e sorted (omega arith) s)

insert_by_height-Perm :
    (e : UpgradeEntry) (es : List UpgradeEntry) → Perm (insert_by_height e es) (e ∷ es)
insert_by_height-Perm e [] = Perm.rfl
insert_by_height-Perm e (d ∷ ds) = elim (Bool-cases (ltb e.activation_height d.activation_height)) [
  | inl before ↦ rw before Perm.rfl
  | inr after ↦ rw after (Perm.trans (Perm.cons d (insert_by_height-Perm e ds)) (Perm.swap e d ds))
]

sort_into-Perm : (sorted es : List UpgradeEntry) → Perm (sort_into sorted es) (es ++ sorted)
sort_into-Perm sorted [] = Perm.rfl
sort_into-Perm sorted (e ∷ es) =
    Perm.trans (sort_into-Perm (insert_by_height e sorted) es)
      (Perm.trans (Perm.append_left es (insert_by_height-Perm e sorted)) (perm_middle es sorted))

-- Scheduling adds exactly the entry, in a list sorted by activation height.
pub schedule_upgrade-IsSorted :
    (m : ForkManager) (e : UpgradeEntry)
    → IsSorted (schedule_upgrade m e).scheduled_upgrades
      × Perm (schedule_upgrade m e).scheduled_upgrades (m.scheduled_upgrades ++ e ∷ [])
unfolding schedule_upgrade sort_by_height
schedule_upgrade-IsSorted m e = (
  sort_into-IsSorted [] (m.scheduled_upgrades ++ e ∷ []) tt,
  subst (Perm (sort_into [] (m.scheduled_upgrades ++ e ∷ [])))
      (append-nil (m.scheduled_upgrades ++ e ∷ []))
      (sort_into-Perm [] (m.scheduled_upgrades ++ e ∷ [])),
)

-- No entry lies above the height.
abbrev IsBelow : ℕ → List UpgradeEntry → Type 0
IsBelow top es = All (λ d. d.activation_height ≤ top) es

IsBelow-weaken : (a b : ℕ) (es : List UpgradeEntry) → a ≤ b → IsBelow a es → IsBelow b es
IsBelow-weaken a b [] h k = tt
IsBelow-weaken a b (e ∷ es) h k = (omega arith, IsBelow-weaken a b es h k.1)

insert_by_height_last :
    (e : UpgradeEntry) (es : List UpgradeEntry)
    → IsBelow e.activation_height es
    → insert_by_height e es ≡ es ++ e ∷ []
insert_by_height_last e [] h = refl
insert_by_height_last e (d ∷ ds) h = ground (arith, insert_by_height_last e ds)

IsBelow-append :
    (top : ℕ) (es : List UpgradeEntry) (e : UpgradeEntry)
    → IsBelow top es
    → top ≤ e.activation_height
    → IsBelow e.activation_height (es ++ e ∷ [])
IsBelow-append top [] e h k = (omega arith, tt)
IsBelow-append top (d ∷ ds) e h k = (omega arith, IsBelow-append top ds e h.1 k)

-- Sorting what is sorted changes nothing.
sort_into_sorted :
    (top : ℕ) (sorted es : List UpgradeEntry)
    → IsBelow top sorted
    → IsSortedFrom top es
    → sort_into sorted es ≡ sorted ++ es
sort_into_sorted top sorted [] h s = sym (append-nil sorted)
sort_into_sorted top sorted (e ∷ es) h s =
    ap (λ l. sort_into l es)
      (insert_by_height_last e sorted (IsBelow-weaken top e.activation_height sorted s.0 h))
    ∙ sort_into_sorted e.activation_height (sorted ++ e ∷ []) es (IsBelow-append top sorted e h s.0)
        s.1
    ∙ append_assoc sorted (e ∷ []) es

sort_into-append :
    (sorted xs ys : List UpgradeEntry)
    → sort_into sorted (xs ++ ys) ≡ sort_into (sort_into sorted xs) ys
sort_into-append sorted [] ys = refl
sort_into-append sorted (x ∷ xs) ys = sort_into-append (insert_by_height x sorted) xs ys

-- In a sorted list, scheduling is the insertion of the entry.
pub schedule_upgrade_sorted :
    (m : ForkManager) (e : UpgradeEntry)
    → IsSorted m.scheduled_upgrades
    → (schedule_upgrade m e).scheduled_upgrades ≡ insert_by_height e m.scheduled_upgrades
unfolding schedule_upgrade sort_by_height
schedule_upgrade_sorted m e s =
    sort_into-append [] m.scheduled_upgrades (e ∷ [])
    ∙ ap (insert_by_height e) (sort_into_sorted 0 [] m.scheduled_upgrades tt s)
