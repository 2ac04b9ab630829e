-- ===== src/Fork/Replay.antt =====
-- The nonces of the emergency rollback of crates/consensus/src/fork.rs.
use call_node.Prelude.{
  ℕ, ◌+◌, ◌%◌, ◌^◌, ◌<◌, ◌≡◌, refl, sym, ap, ◌∙◌, subst, Bool, not, ◌||◌, List, Option, some, arith,
  leb, ◌==◌, length, Bool-cases, nat_key, lookup, insert, contains_key, lookup-insert, Result, ok,
  err, inl, inr, ==_ne, ◌≢◌, ◌⊎◌,
}
use mathlib.Core.Path.{Path}
use call_node.Fork.Types.{
  ProtocolVersion, version_beq, ForkManager, ForkError, EmergencyRollback, EmergencyRollbackResult,
}
use ForkError.{rollback_nonce_mismatch, rollback_target_mismatch, duplicate_rollback_signature}
use call_node.Fork.Upgrades.{rollback_quorum}
use call_node.Fork.Rollback.{
  active_or_new, count_signature, accept_signature, submit_rollback_signature, expected_nonce,
  value_or_zero,
}
use call_node.Fork.Quorum.{submit_rollback_signature-cases}

pub count_signature_nonce :
    (m : ForkManager) (id height : ℕ) (v : ProtocolVersion) (nonce signature : ℕ)
    → let (_, after) = count_signature m (active_or_new m height v) id nonce signature in
      (after.rollback_nonces ≡ insert id ((nonce + 1) % 2 ^ 64) m.rollback_nonces)
      × (after.validator_keys ≡ m.validator_keys)
unfolding count_signature
count_signature_nonce m id height v nonce signature =
    elim (Bool-cases (leb (rollback_quorum m.total_validators) (length signed % 2 ^ 32))) [
      | inl enough ↦ rw enough (refl, refl)
      | inr few ↦ rw few (refl, refl)
    ]
  where
    signed : List (ℕ × ℕ)
    signed = insert id signature (active_or_new m height v).signatures

pub accept_signature-cases :
    (m : ForkManager) (id height : ℕ) (v : ProtocolVersion) (nonce signature : ℕ)
    → let held = active_or_new m height v in
      let (result, counted) = count_signature m held id nonce signature in
      ((e : ForkError) × (accept_signature m id height v nonce signature
          ≡ (err e, record m { active_rollback = some held })))
      ⊎ (accept_signature m id height v nonce signature ≡ (ok result, counted))
unfolding accept_signature
accept_signature-cases m id height v nonce signature =
    elim (Bool-cases (not (r.target_height == height) || not (version_beq r.target_version v))) [
      | inl other ↦ inl (rollback_target_mismatch, rw (accept_signature, other) refl)
      | inr same ↦ elim (Bool-cases (contains_key id r.signatures)) [
        | inl again ↦ inl (duplicate_rollback_signature, rw (accept_signature, same, again) refl)
        | inr first ↦ inr (rw (accept_signature, same, first) refl)
      ]
    ]
  where
    r : EmergencyRollback
    r = active_or_new m height v

ok_is_not_err :
    (o : Option EmergencyRollbackResult) (e : ForkError)
    → Path (Result ForkError (Option EmergencyRollbackResult)) (err e) (ok o)
    → ⊥
ok_is_not_err o e h = ground (arith, h)

accept_signature_nonce :
    (m : ForkManager) (id height : ℕ) (v : ProtocolVersion) (nonce signature : ℕ)
    (o : Option EmergencyRollbackResult)
    → (accept_signature m id height v nonce signature).0 ≡ ok o
    → let (_, after) = accept_signature m id height v nonce signature in
      (after.rollback_nonces ≡ insert id ((nonce + 1) % 2 ^ 64) m.rollback_nonces)
      × (after.validator_keys ≡ m.validator_keys)
accept_signature_nonce m id height v nonce signature o e =
    elim (accept_signature-cases m id height v nonce signature) [
      | inl (c, fails) ↦ absurd (ok_is_not_err o c (sym (ap (λ p. p.0) fails) ∙ e))
      | inr counts ↦
          subst
            (λ (p : Result ForkError (Option EmergencyRollbackResult) × ForkManager).
              (p.1.rollback_nonces ≡ insert id ((nonce + 1) % 2 ^ 64) m.rollback_nonces)
              × (p.1.validator_keys ≡ m.validator_keys))
            (sym counts) (count_signature_nonce m id height v nonce signature)
    ]

stale_nonce :
    (ed25519_verify : ℕ → ℕ → List ℕ → Bool) (m : ForkManager) (key id height : ℕ)
    (v : ProtocolVersion) (nonce signature : ℕ)
    → lookup id m.validator_keys ≡ some key
    → nonce ≢ expected_nonce m id
    → submit_rollback_signature ed25519_verify m id height v nonce signature
      ≡ (err (rollback_nonce_mismatch (expected_nonce m id) nonce), m)
unfolding submit_rollback_signature
stale_nonce ed25519_verify m key id height v nonce signature known stale =
    rw (submit_rollback_signature, known, ==_ne nonce (expected_nonce m id) stale) refl

nonce_after :
    (m after : ForkManager) (id k : ℕ)
    → after.rollback_nonces ≡ insert id k m.rollback_nonces
    → expected_nonce after id ≡ k
unfolding expected_nonce
nonce_after m after id k e =
    ap (λ d. value_or_zero (lookup id d)) e
    ∙ ap value_or_zero (lookup-insert id k m.rollback_nonces)

stale_nonce_next :
    (ed25519_verify : ℕ → ℕ → List ℕ → Bool) (m after : ForkManager) (key id height : ℕ)
    (v : ProtocolVersion) (nonce signature : ℕ)
    → nonce + 1 < 2 ^ 64
    → lookup id m.validator_keys ≡ some key
    → (after.rollback_nonces ≡ insert id ((nonce + 1) % 2 ^ 64) m.rollback_nonces)
      × (after.validator_keys ≡ m.validator_keys)
    → submit_rollback_signature ed25519_verify after id height v nonce signature
      ≡ (err (rollback_nonce_mismatch (nonce + 1) nonce), after)
stale_nonce_next ed25519_verify m after key id height v nonce signature h known kept =
    stale_nonce ed25519_verify after key id height v nonce signature (ap (lookup id) kept.1 ∙ known)
      (λ same. omega (arith, same, h, next))
    ∙ ap (λ n. (err (rollback_nonce_mismatch n nonce), after)) next
  where
    next : expected_nonce after id ≡ nonce + 1
    next = nonce_after m after id ((nonce + 1) % 2 ^ 64) kept.0 ∙ omega (arith, h)

-- A nonce whose signature was accepted is refused when it is sent again, for any target.
pub submit_rollback_signature_replayed :
    (ed25519_verify : ℕ → ℕ → List ℕ → Bool) (m : ForkManager) (id height height' : ℕ)
    (v v' : ProtocolVersion) (nonce signature signature' : ℕ) (o : Option EmergencyRollbackResult)
    → nonce + 1 < 2 ^ 64
    → (submit_rollback_signature ed25519_verify m id height v nonce signature).0 ≡ ok o
    → let (_, after) = submit_rollback_signature ed25519_verify m id height v nonce signature in
      submit_rollback_signature ed25519_verify after id height' v' nonce signature'
      ≡ (err (rollback_nonce_mismatch (nonce + 1) nonce), after)
submit_rollback_signature_replayed ed25519_verify m id height height' v v' nonce signature
      signature' o h e =
    elim (submit_rollback_signature-cases ed25519_verify m id height v nonce signature) [
      | inl (c, fails) ↦ absurd (ok_is_not_err o c (sym (ap (λ p. p.0) fails) ∙ e))
      | inr (key, found) ↦
          let accepted = sym (ap (λ p. p.0) found.1.1.1) ∙ e in
          subst
            (λ (p : Result ForkError (Option EmergencyRollbackResult) × ForkManager).
              submit_rollback_signature ed25519_verify p.1 id height' v' nonce signature'
              ≡ (err (rollback_nonce_mismatch (nonce + 1) nonce), p.1))
            (sym found.1.1.1)
            (stale_nonce_next ed25519_verify m _ key id height' v' nonce signature' h found.0
              (accept_signature_nonce m id height v nonce signature o accepted))
    ]
