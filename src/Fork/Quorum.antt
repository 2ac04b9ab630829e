-- ===== src/Fork/Quorum.antt =====
-- The signatures that the emergency rollback of crates/consensus/src/fork.rs collects.
use call_node.Prelude.{
  ℕ, ◌+◌, ◌*◌, ◌%◌, ◌^◌, ◌≤◌, ◌<◌, ◌≡◌, refl, sym, subst, Bool, true, false, not, ◌||◌, List, [],
  ◌∷◌, Option, none, some, arith, leb, ◌==◌, length, All, Bool-cases, Option-cases, nat_key, Dict,
  lookup, insert, contains_key, HasDistinctKeys, All-insert, insert-HasDistinctKeys,
  contains_key-lookup, length-insert, Result, ok, err, inl, inr, leb→le, ◌⊎◌, ==_iff,
}
use call_node.Fork.Types.{
  ProtocolVersion, version_beq, version_beq_iff, version_key, ForkManager, ForkError,
  EmergencyRollback, EmergencyRollbackResult,
}
use ForkError.{validator_not_found, invalid_signature, rollback_nonce_mismatch}
use call_node.Fork.Upgrades.{rollback_quorum}
use call_node.Fork.Rollback.{
  active_or_new, count_signature, accept_signature, verifies, submit_rollback_signature,
  expected_nonce,
}

-- The smallest number of validators that is two thirds of them.
pub rollback_quorum_least :
    (n : ℕ) → n < 2 ^ 31 → (2 * n ≤ 3 * rollback_quorum n) × (3 * rollback_quorum n < 2 * n + 3)
unfolding rollback_quorum
rollback_quorum_least n h = (omega arith, omega arith)

rollback_quorum_bound : (n : ℕ) → rollback_quorum n ≤ 2 ^ 31
unfolding rollback_quorum
rollback_quorum_bound n = omega arith

lt_of_not_leb : (a b : ℕ) → leb a b ≡ false → b < a
lt_of_not_leb a b h = ground arith

-- The key was registered for the id, of the registrations so far.
abbrev pub IsRegistered : ℕ → ℕ → List (ℕ × ℕ) → Type 0
IsRegistered id key [] = ⊥
IsRegistered id key ((j, k) ∷ rest) = ((j ≡ id) × (k ≡ key)) ⊎ IsRegistered id key rest

-- The keys that a manager holds were registered.
abbrev pub IsKeyed : List (ℕ × ℕ) → ForkManager → Type 0
IsKeyed registrations m =
    (id key : ℕ) → lookup id m.validator_keys ≡ some key → IsRegistered id key registrations

module _ (ed25519_verify : ℕ → ℕ → List ℕ → Bool) where
  -- A submission fails and changes nothing, or it comes from a registered validator, with the
  -- expected nonce and a signature that its key verifies.
  pub submit_rollback_signature-cases :
      (m : ForkManager) (id height : ℕ) (v : ProtocolVersion) (nonce signature : ℕ)
      → ((e : ForkError) × (submit_rollback_signature ed25519_verify m id height v nonce signature
            ≡ (err e, m)))
        ⊎ ((key : ℕ) × ((lookup id m.validator_keys ≡ some key)
              × ((nonce ≡ expected_nonce m id)
                  × ((verifies ed25519_verify key id height v nonce signature ≡ true)
                      × (submit_rollback_signature ed25519_verify m id height v nonce signature
                          ≡ accept_signature m id height v nonce signature)))))
  unfolding submit_rollback_signature
  submit_rollback_signature-cases m id height v nonce signature =
      elim (Option-cases (lookup id m.validator_keys)) [
        | inl missing ↦ inl (validator_not_found id, rw (submit_rollback_signature, missing) refl)
        | inr found ↦ elim (Bool-cases (nonce == expected_nonce m id)) [
          | inr stale ↦ inl (
            rollback_nonce_mismatch (expected_nonce m id) nonce,
            rw (submit_rollback_signature, found.1, stale) refl,
          )
          | inl fresh ↦
              elim (Bool-cases (verifies ed25519_verify found.0 id height v nonce signature)) [
                | inr forged ↦
                    inl (
                      invalid_signature,
                      rw (submit_rollback_signature, found.1, fresh, forged) refl,
                    )
                | inl valid ↦ inr (
                  found.0,
                  (
                    found.1,
                    (
                      (==_iff nonce (expected_nonce m id)).0 fresh,
                      (valid, rw (submit_rollback_signature, found.1, fresh, valid) refl),
                    ),
                  ),
                )
              ]
        ]
      ]

module _ (ed25519_verify : ℕ → ℕ → List ℕ → Bool) (registrations : List (ℕ × ℕ)) where
  -- The signer is registered, and a key that was registered for it verifies the signature for the
  -- target with some nonce.
  abbrev pub IsSignedFor : Dict ℕ ℕ → ℕ → ProtocolVersion → ℕ × ℕ → Type 0
  IsSignedFor keys height v (id, signature) =
      (contains_key id keys ≡ true)
      × ((key : ℕ) × (nonce : ℕ) × IsRegistered id key registrations
          × (verifies ed25519_verify key id height v nonce signature ≡ true))

  -- Different registered signers of the target.
  abbrev pub IsSigned : Dict ℕ ℕ → ℕ → ProtocolVersion → Dict ℕ ℕ → Type 0
  IsSigned keys height v signatures =
      HasDistinctKeys signatures × All (IsSignedFor keys height v) signatures

  abbrev pub IsTallied : ForkManager → Type 0
  IsTallied m = elim m.active_rollback [
    | none ↦ Unit
    | some r ↦
        IsSigned m.validator_keys r.target_height r.target_version r.signatures
        × (length r.signatures ≤ rollback_quorum m.total_validators)
  ]

  -- What a result stands for: a quorum of different registered signers of its target.
  abbrev pub IsQuorate : ForkManager → Option EmergencyRollbackResult → Type 0
  IsQuorate m none = Unit
  IsQuorate m (some r) =
      (signatures : Dict ℕ ℕ) × (IsSigned m.validator_keys r.target_height r.target_version
          signatures
        × ((length signatures ≡ r.signature_count)
            × ((rollback_quorum m.total_validators ≤ r.signature_count)
                × (r.total_validators ≡ m.total_validators))))

  abbrev pub IsTalliedRollback : ForkManager → EmergencyRollback → Type 0
  IsTalliedRollback m r =
      IsSigned m.validator_keys r.target_height r.target_version r.signatures
      × (length r.signatures ≤ rollback_quorum m.total_validators)

  abbrev pub OkIsQuorate : ForkManager → Result ForkError (Option EmergencyRollbackResult) → Type 0
  OkIsQuorate m (err e) = Unit
  OkIsQuorate m (ok o) = IsQuorate m o

  count_signature-IsTallied :
      (m : ForkManager) (r : EmergencyRollback) (id nonce signature : ℕ)
      → IsSigned m.validator_keys r.target_height r.target_version r.signatures
      → length r.signatures ≤ rollback_quorum m.total_validators
      → IsSignedFor m.validator_keys r.target_height r.target_version (id, signature)
      → contains_key id r.signatures ≡ false
      → let (result, after) = count_signature m r id nonce signature in
        IsTallied after × IsQuorate m result
  unfolding count_signature
  count_signature-IsTallied m r id nonce signature k b p f =
      elim (Bool-cases (leb (rollback_quorum m.total_validators) (length signed % 2 ^ 32))) [
        | inl enough ↦ rw enough (tt, (signed, (all_signed, (no_wrap, (leb→le _ _ enough, refl)))))
        | inr few ↦ rw few ((all_signed, omega (arith, lt_of_not_leb _ _ few, no_wrap)), tt)
      ]
    where
      signed : Dict ℕ ℕ
      signed = insert id signature r.signatures

      all_signed : IsSigned m.validator_keys r.target_height r.target_version signed
      all_signed = (
        insert-HasDistinctKeys id signature r.signatures f k.0,
        All-insert (IsSignedFor m.validator_keys r.target_height r.target_version) id signature
            r.signatures f k.1 p,
      )

      one_more : length signed ≡ length r.signatures + 1
      one_more = omega (arith, length-insert id signature r.signatures f)

      no_wrap : length signed ≡ length signed % 2 ^ 32
      no_wrap = omega (arith, rollback_quorum_bound m.total_validators, b, one_more)

  active_or_new-IsTallied :
      (m : ForkManager) (height : ℕ) (v : ProtocolVersion)
      → IsTallied m
      → IsTalliedRollback m (active_or_new m height v)
  active_or_new-IsTallied m height v k = go m.active_rollback k
    where
      go :
          (o : Option EmergencyRollback)
          → IsTallied (record m { active_rollback = o })
          → IsTalliedRollback m (active_or_new (record m { active_rollback = o }) height v)
      go none h = ((tt, tt), omega arith)
      go (some r) h = h

  same_target :
      (r : EmergencyRollback) (height : ℕ) (v : ProtocolVersion)
      → (not (r.target_height == height) || not (version_beq r.target_version v)) ≡ false
      → (r.target_height ≡ height) × (r.target_version ≡ v)
  same_target r height v h = (ground arith, (version_beq_iff r.target_version v).0 (ground arith))

  -- A call that keeps the tally right, and whose result stands for a quorum.
  abbrev pub Tallies :
      ForkManager → Result ForkError (Option EmergencyRollbackResult) × ForkManager → Type 0
  Tallies m (result, after) = IsTallied after × OkIsQuorate m result

  accept_signature-Tallies :
      (m : ForkManager) (key id height : ℕ) (v : ProtocolVersion) (nonce signature : ℕ)
      → IsTallied m
      → contains_key id m.validator_keys ≡ true
      → IsRegistered id key registrations
      → verifies ed25519_verify key id height v nonce signature ≡ true
      → Tallies m (accept_signature m id height v nonce signature)
  unfolding accept_signature
  accept_signature-Tallies m key id height v nonce signature k known own valid =
      elim (Bool-cases (not (r.target_height == height) || not (version_beq r.target_version v))) [
        | inl other ↦ rw other (held, tt)
        | inr same ↦ elim (Bool-cases (contains_key id r.signatures)) [
          | inl again ↦ rw (same, again) (held, tt)
          | inr new_one ↦
              let target = same_target r height v same in
              rw (same, new_one)
                (count_signature-IsTallied m r id nonce signature held.0 held.1
                  (known, (key, nonce, own, rw (target.0, target.1) valid)) new_one)
        ]
      ]
    where
      r : EmergencyRollback
      r = active_or_new m height v

      held : IsTalliedRollback m r
      held = active_or_new-IsTallied m height v k

  -- A signature keeps the tally right, and a result stands for a quorum of registered signers.
  pub submit_rollback_signature-Tallies :
      (m : ForkManager) (id height : ℕ) (v : ProtocolVersion) (nonce signature : ℕ)
      → IsKeyed registrations m
      → IsTallied m
      → Tallies m (submit_rollback_signature ed25519_verify m id height v nonce signature)
  submit_rollback_signature-Tallies m id height v nonce signature keyed k =
      elim (submit_rollback_signature-cases ed25519_verify m id height v nonce signature) [
        | inl fails ↦ subst (Tallies m) (sym fails.1) (k, tt)
        | inr (key, found) ↦ subst (Tallies m) (sym found.1.1.1) (
            accept_signature-Tallies m key id height v nonce signature k
              (contains_key-lookup id key m.validator_keys found.0) (keyed id key found.0)
              found.1.1.0)
      ]
