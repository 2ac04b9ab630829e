-- ===== src/Fork/Messages.antt =====
-- The message that a rollback signature of crates/consensus/src/fork.rs covers.
use call_node.Prelude.{
  ℕ, ◌^◌, ◌<◌, ◌≡◌, refl, sym, ap, ◌∙◌, List, [], ◌∷◌, ◌++◌, arith, length, to_le_bytes,
  from_le_bytes, length-to_le_bytes, from_le_bytes-to_le_bytes,
}
use mathlib.Core.Path.{ap₂}
use mathlib.Core.List.{head-eq_of_cons-eq, tail-eq_of_cons-eq}
use call_node.Fork.Types.{ProtocolVersion}
use call_node.Fork.Rollback.{rollback_message_hash, rollback_domain}

append_injective :
    (xs ys us vs : List ℕ) → length xs ≡ length us → xs ++ ys ≡ us ++ vs → (xs ≡ us) × (ys ≡ vs)
append_injective [] ys [] vs h e = (refl, e)
append_injective [] ys (u ∷ us) vs h e = absurd (omega (arith, h))
append_injective (x ∷ xs) ys [] vs h e = absurd (omega (arith, h))
append_injective (x ∷ xs) ys (u ∷ us) vs h e =
    let rest = append_injective xs ys us vs (omega (arith, h)) (tail-eq_of_cons-eq e) in
    (ap₂ ◌∷◌ (head-eq_of_cons-eq e) rest.0, rest.1)

to_le_bytes_injective :
    (n v w : ℕ) → v < 256 ^ n → w < 256 ^ n → to_le_bytes n v ≡ to_le_bytes n w → v ≡ w
to_le_bytes_injective n v w h k e =
    sym (from_le_bytes-to_le_bytes n v h) ∙ ap from_le_bytes e ∙ from_le_bytes-to_le_bytes n w k

number_first :
    (n v w : ℕ) (xs ys : List ℕ)
    → v < 256 ^ n
    → w < 256 ^ n
    → to_le_bytes n v ++ xs ≡ to_le_bytes n w ++ ys
    → (v ≡ w) × (xs ≡ ys)
number_first n v w xs ys h k e =
    let split =
      append_injective (to_le_bytes n v) xs (to_le_bytes n w) ys
        (length-to_le_bytes n v ∙ sym (length-to_le_bytes n w)) e in
    (to_le_bytes_injective n v w h k split.0, split.1)

-- The fields of a version are of 16 bits.
abbrev pub IsVersion : ProtocolVersion → Type 0
IsVersion v = (v.major < 2 ^ 16) × ((v.minor < 2 ^ 16) × (v.patch < 2 ^ 16))

-- Messages for different targets or nonces differ, so that a signature counts for one of each.
pub rollback_message_hash_injective :
    (id id' height height' : ℕ) (v v' : ProtocolVersion) (nonce nonce' : ℕ)
    → height < 2 ^ 64
    → height' < 2 ^ 64
    → IsVersion v
    → IsVersion v'
    → nonce < 2 ^ 64
    → nonce' < 2 ^ 64
    → rollback_message_hash id height v nonce ≡ rollback_message_hash id' height' v' nonce'
    → (height ≡ height') × ((v ≡ v') × (nonce ≡ nonce'))
unfolding rollback_message_hash
rollback_message_hash_injective id id' height height' v v' nonce nonce' h h' b b' n n' e =
    let (_, e₁) = append_injective rollback_domain _ rollback_domain _ refl e in
    let (p, e₂) = number_first 8 height height' _ _ h h' e₁ in
    let (q, e₃) = number_first 2 v.major v'.major _ _ b.0 b'.0 e₂ in
    let (r, e₄) = number_first 2 v.minor v'.minor _ _ b.1.0 b'.1.0 e₃ in
    let (s, e₅) = number_first 2 v.patch v'.patch _ _ b.1.1 b'.1.1 e₄ in
    (
      p,
      (
        (λ i. record { major = q i; minor = r i; patch = s i }),
        to_le_bytes_injective 8 nonce nonce' n n' e₅,
      ),
    )
