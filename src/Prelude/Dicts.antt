-- ===== src/Prelude/Dicts.antt =====
-- A HashMap or HashSet of the standard library, as an association list or a list of keys that holds
-- each key once. Only what does not depend on the order of iteration is defined.
use mathlib.Core.Path.{◌≡◌, refl, sym, subst, ◌∙◌}
use mathlib.Core.Logic.{◌↔◌, inl, inr}
use mathlib.Core.Bool.{Bool, true, false, false≢true}
use mathlib.Core.Option.{Option, none, some}
use mathlib.Core.List.{List, [], ◌∷◌}
use native.Mathlib.Omega.{arith}
use Prim.Native.Nat.{ℕ, suc}
use call_node.Prelude.Tests.{◌==◌ as nat_beq, ==_iff, if◌then◌else◌, Bool-cases}
use call_node.Prelude.Lists.{length, All}

-- Equality of keys as a test.
pub record Key (K : Type 0) : Type 0 where
  pub beq : K → K → Bool
  pub beq_iff : (a b : K) → (beq a b ≡ true) ↔ (a ≡ b)

instance abbrev pub nat_key : Key ℕ
nat_key = record { beq = nat_beq; beq_iff = ==_iff }

infix 50 ◌≟◌
abbrev pub ◌≟◌ : {K : Type 0} ⦃e : Key K⦄ → K → K → Bool
◌≟◌ ⦃e⦄ = e.beq

abbrev pub Dict : Type 0 → Type 0 → Type 0
Dict K V = List (K × V)

module _ {K : Type 0} ⦃e : Key K⦄ where
  -- `get`
  abbrev pub lookup : {V : Type 0} → K → Dict K V → Option V
  lookup k [] = none
  lookup k ((j, v) ∷ d) = if e.beq j k then some v else lookup k d

  abbrev pub contains_key : {V : Type 0} → K → Dict K V → Bool
  contains_key k [] = false
  contains_key k ((j, v) ∷ d) = if e.beq j k then true else contains_key k d

  abbrev pub insert : {V : Type 0} → K → V → Dict K V → Dict K V
  insert k v [] = (k, v) ∷ []
  insert k v ((j, w) ∷ d) = if e.beq j k then (j, v) ∷ d else ((j, w) ∷ insert k v d)

  abbrev pub remove : {V : Type 0} → K → Dict K V → Dict K V
  remove k [] = []
  remove k ((j, w) ∷ d) = if e.beq j k then d else ((j, w) ∷ remove k d)

  -- Each key stands once.
  abbrev pub HasDistinctKeys : {V : Type 0} → Dict K V → Type 0
  HasDistinctKeys [] = Unit
  HasDistinctKeys ((j, w) ∷ d) = (contains_key j d ≡ false) × HasDistinctKeys d

  -- A HashSet's `contains` and `insert`.
  abbrev pub member : K → List K → Bool
  member k [] = false
  member k (j ∷ s) = if e.beq j k then true else member k s

  abbrev pub include : K → List K → List K
  include k s = if member k s then s else (k ∷ s)

  -- A HashSet's `remove`.
  abbrev pub exclude : K → List K → List K
  exclude k [] = []
  exclude k (j ∷ s) = if e.beq j k then s else (j ∷ exclude k s)

  pub beq_refl : (k : K) → e.beq k k ≡ true
  beq_refl k = (e.beq_iff k k).1 refl

  pub lookup-insert : {V : Type 0} (k : K) (v : V) (d : Dict K V) → lookup k (insert k v d) ≡ some v
  lookup-insert k v [] = ground (arith, beq_refl k)
  lookup-insert k v ((j, w) ∷ d) = ground (arith, lookup-insert k v d)

  pub lookup-insert_other :
      {V : Type 0} (i k : K) (v : V) (d : Dict K V)
      → e.beq k i ≡ false
      → lookup i (insert k v d) ≡ lookup i d
  lookup-insert_other i k v [] h = ground arith
  lookup-insert_other i k v ((j, w) ∷ d) h = elim (Bool-cases (e.beq j k)) [
    | inl same ↦ rw (same, subst (λ x. e.beq x i ≡ false) (sym ((e.beq_iff j k).0 same)) h) refl
    | inr differ ↦ ground (arith, lookup-insert_other i k v d h)
  ]

  pub contains_key-insert :
      {V : Type 0} (i k : K) (v : V) (d : Dict K V)
      → contains_key i d ≡ true
      → contains_key i (insert k v d) ≡ true
  contains_key-insert i k v [] h = ground arith
  contains_key-insert i k v ((j, w) ∷ d) h = ground (arith, contains_key-insert i k v d)

  pub length-insert :
      {V : Type 0} (k : K) (v : V) (d : Dict K V)
      → contains_key k d ≡ false
      → length (insert k v d) ≡ suc (length d)
  length-insert k v [] h = refl
  length-insert k v ((j, w) ∷ d) h = ground (arith, length-insert k v d)

  pub All-insert :
      {V : Type 0} (P : K × V → Type 0) (k : K) (v : V) (d : Dict K V)
      → contains_key k d ≡ false
      → All P d
      → P (k, v)
      → All P (insert k v d)
  All-insert P k v [] f h p = (p, tt)
  All-insert P k v ((j, w) ∷ d) f h p = elim (Bool-cases (e.beq j k)) [
    | inl same ↦ absurd (ground (arith, f, same))
    | inr differ ↦ rw differ (h.0, All-insert P k v d (ground (arith, f)) h.1 p)
  ]

  contains_key-insert_other :
      {V : Type 0} (i k : K) (v : V) (d : Dict K V)
      → e.beq k i ≡ false
      → contains_key i d ≡ false
      → contains_key i (insert k v d) ≡ false
  contains_key-insert_other i k v [] h f = ground arith
  contains_key-insert_other i k v ((j, w) ∷ d) h f =
      ground (arith, contains_key-insert_other i k v d)

  beq_sym_false : (j k : K) → e.beq j k ≡ false → e.beq k j ≡ false
  beq_sym_false j k h = elim (Bool-cases (e.beq k j)) [
    | inl same ↦ absurd (false≢true (sym h ∙ (e.beq_iff j k).1 (sym ((e.beq_iff k j).0 same))))
    | inr differ ↦ differ
  ]

  pub insert-HasDistinctKeys :
      {V : Type 0} (k : K) (v : V) (d : Dict K V)
      → contains_key k d ≡ false
      → HasDistinctKeys d
      → HasDistinctKeys (insert k v d)
  insert-HasDistinctKeys k v [] f h = (refl, tt)
  insert-HasDistinctKeys k v ((j, w) ∷ d) f h = elim (Bool-cases (e.beq j k)) [
    | inl same ↦ absurd (ground (arith, f, same))
    | inr differ ↦ rw differ (
      contains_key-insert_other j k v d (beq_sym_false j k differ) h.0,
      insert-HasDistinctKeys k v d (ground (arith, f)) h.1,
    )
  ]

  pub contains_key-lookup :
      {V : Type 0} (k : K) (v : V) (d : Dict K V) → lookup k d ≡ some v → contains_key k d ≡ true
  contains_key-lookup k v [] h = ground (arith, h)
  contains_key-lookup k v ((j, w) ∷ d) h = ground (arith, h, contains_key-lookup k v d)
