-- ===== src/Governance/Rounds.antt =====
-- The rounds of signatures: the count is the number of validators that have signed in the epoch,
-- and a new round starts from none.
use mathlib.Core.Bool.{false≢true}
use call_node.Prelude.{
  ℕ, ◌+◌, ◌%◌, ◌^◌, ◌≤◌, ◌<◌, ◌≡◌, ◌*◌, sym, subst, refl, ◌∙◌, ap, inl, inr, Bool, true, false,
  List, [], ◌∷◌, arith, if◌then◌else◌, u64_max, sum_of, sum_of_raised, times, length, ok,
  Result-cases, Bool-cases,
}
use call_node.Storage.{Storage, store, slot_gov_paused, slot_gov_pause_reason}
use call_node.Governance.Lifecycle.{mutate_void-cases}
use call_node.Governance.Submission.{governance_config}
use call_node.Governance.Types.{}
use call_node.Governance.Reads.{is_paused}
use call_node.Governance.Emergency.{
  Alarm, pausing, resuming, read_emergency_epoch, read_emergency_sig_epoch,
  read_emergency_sig_count, sign, next_round, emergency_pause,
}
use call_node.Governance.Entry.{mutate_void, emergency_pause_call, pause_handler}
use call_node.Governance.Signatures.{
  epoch_of, signed, signers, threshold, sign-cases, sign-IsSignedBy, sign_writes, sign_paused,
  threshold_same,
}

-- The count is that of the validators of the list that have signed, and no signature is ahead.
pub record IsCounted (alarm : Alarm) (vs : List ℕ) (st : Storage) : Type 0 where
  pub counted : read_emergency_sig_count alarm st ≡ signers alarm vs st
  pub none_ahead : (v : ℕ) → read_emergency_sig_epoch alarm v st ≤ epoch_of alarm st

signers-le : (alarm : Alarm) (vs : List ℕ) (st : Storage) → signers alarm vs st ≤ length vs
signers-le alarm [] st = omega arith
signers-le alarm (v ∷ vs) st = ground (arith, signers-le alarm vs st)

sum_of_zero : (f : ℕ → ℕ) (vs : List ℕ) → ((v : ℕ) → f v ≡ 0) → sum_of f vs ≡ 0
sum_of_zero f [] h = refl
sum_of_zero f (v ∷ vs) h = omega (arith, h v, sum_of_zero f vs h)

module _ (alarm : Alarm) (caller : ℕ) (vs : List ℕ) (st : Storage) (reached : Bool) where
  -- A signature counts once.
  sign_raises :
      (sign alarm caller st).0 ≡ ok reached
      → signers alarm vs (sign alarm caller st).1 ≡ signers alarm vs st + times caller vs * 1
  sign_raises h =
      let (fresh, _, _) = sign-cases alarm caller st reached h in
      sum_of_raised (signed alarm st) (signed alarm (sign alarm caller st).1) caller 1 vs
        (λ w ne. ground (arith, sign-IsSignedBy alarm caller w st reached h))
        (ground (arith, sign-IsSignedBy alarm caller caller st reached h))

  sign-IsCounted :
      (sign alarm caller st).0 ≡ ok reached
      → times caller vs ≡ 1
      → length vs < u64_max
      → IsCounted alarm vs st
      → IsCounted alarm vs (sign alarm caller st).1
  sign-IsCounted h once few c = record {
    counted = ground (
      arith,
      sign_raises h,
      sign-IsSignedBy alarm caller caller st reached h,
      signers-le alarm vs st,
      c.counted,
    );
    none_ahead = λ v. ground (arith, sign-IsSignedBy alarm caller v st reached h, c.none_ahead v);
  }

round_slots :
    (alarm : Alarm) (v : ℕ) (st : Storage)
    → (read_emergency_epoch alarm (next_round alarm st).1
        ≡ (read_emergency_epoch alarm st + 1) % 2 ^ 64)
      × (read_emergency_sig_epoch alarm v (next_round alarm st).1
          ≡ read_emergency_sig_epoch alarm v st)
      × (read_emergency_sig_count alarm (next_round alarm st).1 ≡ 0)
round_slots pausing v st = ground arith
round_slots resuming v st = ground arith

next_round-IsCounted :
    (alarm : Alarm) (vs : List ℕ) (st : Storage)
    → 0 < read_emergency_epoch alarm st
    → read_emergency_epoch alarm st < u64_max
    → IsCounted alarm vs st
    → IsCounted alarm vs (next_round alarm st).1
next_round-IsCounted alarm vs st lo hi c = record {
  counted = ground (
    arith,
    round_slots alarm 0 st,
    sum_of_zero (signed alarm (next_round alarm st).1) vs
        (λ v. ground (arith, round_slots alarm v st, c.none_ahead v)),
  );
  none_ahead = λ v. ground (arith, round_slots alarm v st, c.none_ahead v);
}

-- A pause that succeeds: the signature, and with the last one that was needed the next round.
pause_handler-ok :
    (reason sender : ℕ) (st : Storage)
    → (pause_handler reason sender st).0 ≡ ok tt
    → (reached : Bool) × ((sign pausing sender st).0 ≡ ok reached)
      × (is_paused st ≡ false)
      × ((pause_handler reason sender st).1 ≡ (
          if reached
          then (next_round pausing (
              store slot_gov_pause_reason reason
                (store slot_gov_paused 1 (sign pausing sender st).1))).1
          else (sign pausing sender st).1))
unfolding pause_handler emergency_pause
pause_handler-ok reason sender st h = elim (Result-cases (sign pausing sender st).0) [
  | inl (true, r) ↦ (true, r, ground arith, ground arith)
  | inl (false, r) ↦ (false, r, ground arith, ground arith)
  | inr (e, r) ↦ ground arith
]

-- A call of `emergencyPause`, whether it fails, only counts or pauses the chain, keeps the count of
-- the signatures that of the validators of the list, of which the caller is one, listed once, that
-- have signed in the epoch, while the epoch is below 2 ^ 64 - 1.
pub emergency_pause_call-IsCounted :
    (gas reason sender : ℕ) (vs : List ℕ) (st : Storage)
    → times sender vs ≡ 1
    → length vs < u64_max
    → read_emergency_epoch pausing st < u64_max
    → IsCounted pausing vs st
    → IsCounted pausing vs (emergency_pause_call gas reason sender st).1
unfolding emergency_pause_call
emergency_pause_call-IsCounted gas reason sender vs st once few lt c =
    elim (mutate_void-cases 30_000 gas (pause_handler reason sender) st) [
      | inl same ↦ subst (IsCounted pausing vs) (sym same) c
      | inr (done, same) ↦
          let (reached, r, _, after) = pause_handler-ok reason sender st done in
          let counted = sign-IsCounted pausing sender vs st reached r once few c in
          subst (IsCounted pausing vs) (sym (same ∙ after)) (
            round reached (sign pausing sender st).1
              (sign-IsSignedBy pausing sender sender st reached r).0 counted)
    ]
  where
    round :
        (reached : Bool) (st' : Storage)
        → read_emergency_epoch pausing st' ≡ epoch_of pausing st
        → IsCounted pausing vs st'
        → IsCounted pausing vs (
            if reached
            then (next_round pausing
                (store slot_gov_pause_reason reason (store slot_gov_paused 1 st'))).1
            else st')
    round false st' e c = c
    round true st' e c =
        next_round-IsCounted pausing vs
          (store slot_gov_pause_reason reason (store slot_gov_paused 1 st')) (ground arith)
          (ground arith) (record { counted = c.counted; none_ahead = c.none_ahead })

-- A call of `emergencyPause` that pauses a chain that is not paused is the one with which the
-- signatures, counted as they should be, reach the threshold; its caller had not signed in this
-- epoch. The list is shorter than the greatest u64.
pub paused_by_quorum :
    (gas reason sender : ℕ) (vs : List ℕ) (st : Storage)
    → length vs < u64_max
    → IsCounted pausing vs st
    → is_paused st ≡ false
    → is_paused (emergency_pause_call gas reason sender st).1 ≡ true
    → (threshold st ≤ signers pausing vs st + 1) × (signed pausing st sender ≡ 0)
unfolding emergency_pause_call
paused_by_quorum gas reason sender vs st few c before after =
    elim (mutate_void-cases 30_000 gas (pause_handler reason sender) st) [
      | inl same ↦ absurd (false≢true (sym before ∙ sym (ap is_paused same) ∙ after))
      | inr (done, same) ↦
          let (reached, r, _, e) = pause_handler-ok reason sender st done in
          let (fresh, wrote, enough) = sign-cases pausing sender st reached r in
          elim (Bool-cases reached) [
            | inl all_signed ↦ (
              ground (arith, threshold_same sender st, signers-le pausing vs st, c.counted),
              ground arith,
            )
            | inr too_few ↦
                absurd
                  (false≢true (sym before ∙ sym (unpaused reached r too_few wrote e same) ∙ after))
          ]
    ]
  where
    unpaused :
        (reached : Bool)
        → (sign pausing sender st).0 ≡ ok reached
        → reached ≡ false
        → (sign pausing sender st).1 ≡ (governance_config (sign_writes pausing sender st)).1
        → (pause_handler reason sender st).1 ≡ (
            if reached
            then (next_round pausing (
                store slot_gov_pause_reason reason
                  (store slot_gov_paused 1 (sign pausing sender st).1))).1
            else (sign pausing sender st).1)
        → (mutate_void 30_000 gas (pause_handler reason sender) st).1
          ≡ (pause_handler reason sender st).1
        → is_paused (mutate_void 30_000 gas (pause_handler reason sender) st).1 ≡ is_paused st
    unpaused true r too_few wrote e same = absurd (false≢true (sym too_few))
    unpaused false r too_few wrote e same =
        ap is_paused same ∙ ap is_paused e ∙ ap is_paused wrote ∙ sign_paused sender st
