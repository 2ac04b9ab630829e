-- ===== src/Fork/Collection.antt =====
-- The calls that collect rollback signatures in crates/consensus/src/fork.rs.
use call_node.Prelude.{
  ℕ, ◌≡◌, sym, ap, ◌∙◌, subst, Bool, List, [], ◌∷◌, Option, none, some, arith, ◌==◌, ==_iff, All,
  Bool-cases, inl, inr, nat_key, Dict, lookup, insert, lookup-insert, lookup-insert_other,
  contains_key-insert, Result,
}
use call_node.Fork.Types.{
  ProtocolVersion, version_key, ForkManager, ForkError, EmergencyRollback, EmergencyRollbackResult,
}
use call_node.Fork.Upgrades.{new, register_validator}
use call_node.Fork.Rollback.{accept_signature, submit_rollback_signature, execute_rollback}
use call_node.Fork.Quorum.{
  IsKeyed, IsSignedFor, IsTallied, OkIsQuorate, submit_rollback_signature-cases,
  submit_rollback_signature-Tallies,
}
use call_node.Fork.Replay.{count_signature_nonce, accept_signature-cases}

accept_signature_keys :
    (m : ForkManager) (id height : ℕ) (v : ProtocolVersion) (nonce signature : ℕ)
    → (accept_signature m id height v nonce signature).1.validator_keys ≡ m.validator_keys
accept_signature_keys m id height v nonce signature =
    elim (accept_signature-cases m id height v nonce signature) [
      | inl fails ↦
          ap
            (λ (p : Result ForkError (Option EmergencyRollbackResult) × ForkManager).
              p.1.validator_keys)
            fails.1
      | inr counts ↦
          ap
            (λ (p : Result ForkError (Option EmergencyRollbackResult) × ForkManager).
              p.1.validator_keys)
            counts
          ∙ (count_signature_nonce m id height v nonce signature).1
    ]

module _ (ed25519_verify : ℕ → ℕ → List ℕ → Bool) where
  -- The managers that calls lead to from a new one, with the keys registered on the way.
  pub data Collecting : List (ℕ × ℕ) → ForkManager → Type 0 where
    start : (v : ProtocolVersion) (n : ℕ) → Collecting [] (new v n)
    register :
        {ks : List (ℕ × ℕ)} {m : ForkManager} (id key : ℕ)
        → Collecting ks m
        → Collecting ((id, key) ∷ ks) (register_validator m id key)
    submit :
        {ks : List (ℕ × ℕ)} {m : ForkManager} (id height : ℕ) (v : ProtocolVersion)
        (nonce signature : ℕ)
        → Collecting ks m
        → Collecting ks (submit_rollback_signature ed25519_verify m id height v nonce signature).1
    execute :
        {ks : List (ℕ × ℕ)} {m : ForkManager} (r : EmergencyRollbackResult) (current : ℕ)
        → Collecting ks m
        → Collecting ks (execute_rollback m r current).1

  All-registered :
      (id key height : ℕ) (v : ProtocolVersion) (ks : List (ℕ × ℕ)) (keys d : Dict ℕ ℕ)
      → All (IsSignedFor ed25519_verify ks keys height v) d
      → All (IsSignedFor ed25519_verify ((id, key) ∷ ks) (insert id key keys) height v) d
  All-registered id key height v ks keys [] h = tt
  All-registered id key height v ks keys ((j, s) ∷ d) h =
      let (known, (k, nonce, own, valid)) = h.0 in
      (
        (contains_key-insert j id key keys known, (k, nonce, inr own, valid)),
        All-registered id key height v ks keys d h.1,
      )

  register_validator-IsTallied :
      (ks : List (ℕ × ℕ)) (m : ForkManager) (id key : ℕ)
      → IsTallied ed25519_verify ks m
      → IsTallied ed25519_verify ((id, key) ∷ ks) (register_validator m id key)
  unfolding register_validator
  register_validator-IsTallied ks m id key k = go m.active_rollback k
    where
      go :
          (o : Option EmergencyRollback)
          → IsTallied ed25519_verify ks (record m { active_rollback = o })
          → IsTallied ed25519_verify
              ((id, key) ∷ ks)
              (record m { active_rollback = o; validator_keys = insert id key m.validator_keys })
      go none h = tt
      go (some r) h = (
        (
          h.0.0,
          All-registered id key r.target_height r.target_version ks m.validator_keys r.signatures
              h.0.1,
        ),
        h.1,
      )

  register_validator-IsKeyed :
      (ks : List (ℕ × ℕ)) (m : ForkManager) (id key : ℕ)
      → IsKeyed ks m
      → IsKeyed ((id, key) ∷ ks) (register_validator m id key)
  unfolding register_validator
  register_validator-IsKeyed ks m id key keyed j k h = elim (Bool-cases (id == j)) [
    | inl same ↦
        let e = (==_iff id j).0 same in
        let found : some key ≡ some k =
          sym (
            subst (λ i. lookup i (insert id key m.validator_keys) ≡ some key) e
              (lookup-insert id key m.validator_keys))
          ∙ h in
        inl (e, ground (arith, found))
    | inr other ↦ inr (keyed j k (sym (lookup-insert_other j id key m.validator_keys other) ∙ h))
  ]

  -- A submission leaves the keys as they were.
  submit_rollback_signature_keys :
      (m : ForkManager) (id height : ℕ) (v : ProtocolVersion) (nonce signature : ℕ)
      → (submit_rollback_signature ed25519_verify m id height v nonce signature).1.validator_keys
        ≡ m.validator_keys
  submit_rollback_signature_keys m id height v nonce signature =
      elim (submit_rollback_signature-cases ed25519_verify m id height v nonce signature) [
        | inl fails ↦
            ap
              (λ (p : Result ForkError (Option EmergencyRollbackResult) × ForkManager).
                p.1.validator_keys)
              fails.1
        | inr (key, found) ↦
            ap
              (λ (p : Result ForkError (Option EmergencyRollbackResult) × ForkManager).
                p.1.validator_keys)
              found.1.1.1
            ∙ accept_signature_keys m id height v nonce signature
      ]

  submit_rollback_signature-IsKeyed :
      (ks : List (ℕ × ℕ)) (m : ForkManager) (id height : ℕ) (v : ProtocolVersion)
      (nonce signature : ℕ)
      → IsKeyed ks m
      → IsKeyed ks (submit_rollback_signature ed25519_verify m id height v nonce signature).1
  submit_rollback_signature-IsKeyed ks m id height v nonce signature keyed j k h = keyed j k (
      sym (ap (λ d. lookup j d) (submit_rollback_signature_keys m id height v nonce signature)) ∙ h)

  pub Collecting-IsTallied :
      (ks : List (ℕ × ℕ)) (m : ForkManager)
      → Collecting ks m
      → IsKeyed ks m × IsTallied ed25519_verify ks m
  unfolding new execute_rollback
  Collecting-IsTallied ks m (start v n) = ((λ j k h. ground (arith, h)), tt)
  Collecting-IsTallied ks m (register id key c) =
      let (keyed, tallied) = Collecting-IsTallied _ _ c in
      (register_validator-IsKeyed _ _ id key keyed, register_validator-IsTallied _ _ id key tallied)
  Collecting-IsTallied ks m (submit id height v nonce signature c) =
      let (keyed, tallied) = Collecting-IsTallied _ _ c in
      (
        submit_rollback_signature-IsKeyed _ _ id height v nonce signature keyed,
        (submit_rollback_signature-Tallies ed25519_verify _ _ id height v nonce signature keyed
            tallied).0,
      )
  Collecting-IsTallied ks m (execute r current c) = Collecting-IsTallied _ _ c

  -- After any calls, a rollback that is granted has a quorum of different registered validators
  -- behind it, with a signature of its target by each, which a key verifies that was registered
  -- for that validator. The message names no validator.
  pub submit_rollback_signature-IsQuorate :
      (ks : List (ℕ × ℕ)) (m : ForkManager) (id height : ℕ) (v : ProtocolVersion)
      (nonce signature : ℕ)
      → Collecting ks m
      → OkIsQuorate ed25519_verify ks m
          (submit_rollback_signature ed25519_verify m id height v nonce signature).0
  submit_rollback_signature-IsQuorate ks m id height v nonce signature c =
      let (keyed, tallied) = Collecting-IsTallied ks m c in
      (submit_rollback_signature-Tallies ed25519_verify ks m id height v nonce signature keyed
        tallied).1
