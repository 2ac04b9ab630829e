-- ===== src/Governance/Storing.antt =====
-- What a submission stores of the data of a proposal.
use call_node.Prelude.{
  ℕ, ◌+◌, ◌/◌, ◌%◌, ◌^◌, ◌≤◌, ◌≡◌, sym, subst, refl, ◌∙◌, Bool, true, false, List, [], ◌∷◌, arith,
  length, All, IsByte, Result, ok, err,
}
use call_node.Storage.{
  Slot, Storage, ConfigKey, ProposalKey, store, slot_gov_proposal, slot_gov_proposal_count,
  slot_gov_proposal_data_chunk, Keeps, Keeps-write, keeps_rules, write,
}
use call_node.Governance.Types.{GovError, max_execution_data_len}
use call_node.Governance.Reads.{read_config_u64, read_proposal_count, read_proposal_execution_data}
use call_node.Governance.Submission.{
  ensure_config_initialized, governance_config, compute_and_set_quorum, chunks, write_chunks,
  write_content, open_ballot, write_schedule, finish_record, write_record, file_proposal,
  open_submission, submit_proposal, chunk_word,
}
use call_node.Governance.Chunks.{
  HasChunks, HasChunks-same, write_chunks-HasChunks, execution_data_back,
}

-- The slots of the data.
abbrev is_data : Slot → Bool
is_data (slot_gov_proposal_data_chunk _ _) = true
is_data (slot_gov_proposal _ ProposalKey.data_len) = true
is_data _ = false

module _ (p : Slot) (h : is_data p ≡ true) where
  write_beside : {E : Type 0} (q : Slot) (v : ℕ) → is_data q ≡ false → Keeps {E = E} p (write q v)
  write_beside q v o = Keeps-write is_data q v h o

  ensure_config_initialized-Keeps : Keeps p ensure_config_initialized
  unfolding ensure_config_initialized
  ensure_config_initialized-Keeps = search (keeps_rules, write_beside) depth 30

  governance_config-Keeps : Keeps p governance_config
  unfolding governance_config
  governance_config-Keeps = search (keeps_rules, ensure_config_initialized-Keeps) depth 30

  compute_and_set_quorum-Keeps : (q : ℕ) → Keeps p (compute_and_set_quorum q)
  unfolding compute_and_set_quorum
  compute_and_set_quorum-Keeps q =
      search (keeps_rules, write_beside, governance_config-Keeps) depth 30

  open_ballot-Keeps : (q status : ℕ) → Keeps p (open_ballot q status)
  unfolding open_ballot
  open_ballot-Keeps q status = search (keeps_rules, write_beside) depth 40

  write_schedule-Keeps : (q t s e : ℕ) → Keeps p (write_schedule q t s e)
  unfolding write_schedule
  write_schedule-Keeps q t s e = search (keeps_rules, write_beside) depth 40

  finish_record-Keeps : (t a block r s e new : ℕ) → Keeps p (finish_record t a block r s e new)
  unfolding finish_record
  finish_record-Keeps t a block r s e new =
      search
        (
          keeps_rules, write_beside, open_ballot-Keeps, write_schedule-Keeps,
          compute_and_set_quorum-Keeps,
        )
        depth 60

-- The chunks lie beside the length.
write_chunks_len :
    (id i : ℕ) (cs : List (List ℕ)) (st : Storage)
    → (write_chunks id i cs st).1 (slot_gov_proposal id ProposalKey.data_len)
      ≡ st (slot_gov_proposal id ProposalKey.data_len)
unfolding write_chunks
write_chunks_len id i [] st = refl
write_chunks_len id i (c ∷ cs) st = ground (
  arith,
  write_chunks_len id (i + 1) cs (store (slot_gov_proposal_data_chunk id i) (chunk_word c) st),
)

-- The storage has the data of the proposal.
abbrev HasData : ℕ → List ℕ → Storage → Type 0
HasData id bytes st =
    (st (slot_gov_proposal id ProposalKey.data_len) ≡ length bytes)
    × HasChunks id 0 ((length bytes + 31) / 32) bytes st

module _ (keccak256 : List ℕ → ℕ) (t : ℕ) (title description bytes : List ℕ) (a block : ℕ) where
  content-HasData :
      (id : ℕ) (st : Storage)
      → HasData id bytes (write_content keccak256 id title description bytes a st).1
  unfolding write_content
  content-HasData id st = (
    write_chunks_len id 0 (chunks ((length bytes + 31) / 32) bytes) _ ∙ own,
    write_chunks-HasChunks id 0 ((length bytes + 31) / 32) bytes _,
  )
    where
      before : Storage
      before = store (slot_gov_proposal id ProposalKey.data_hash) (keccak256 bytes) (
          store (slot_gov_proposal id ProposalKey.desc) (keccak256 description) (
            store (slot_gov_proposal id ProposalKey.title) (keccak256 title)
              (store (slot_gov_proposal id ProposalKey.proposer) a st)))

      own :
          store
            (slot_gov_proposal id ProposalKey.data_len)
            (length bytes)
            before
            (slot_gov_proposal id ProposalKey.data_len)
          ≡ length bytes
      own = ground arith

  write_chunks-ok :
      (id i : ℕ) (cs : List (List ℕ)) (st : Storage) → (write_chunks id i cs st).0 ≡ ok tt
  unfolding write_chunks
  write_chunks-ok id i [] st = refl
  write_chunks-ok id i (c ∷ cs) st = write_chunks-ok id (i + 1) cs _

  content-ok :
      (id : ℕ) (st : Storage) → (write_content keccak256 id title description bytes a st).0 ≡ ok tt
  unfolding write_content
  content-ok id st = write_chunks-ok id 0 (chunks ((length bytes + 31) / 32) bytes) _

  record-HasData :
      (r s e id : ℕ) (st : Storage)
      → HasData id bytes (write_record keccak256 t title description bytes a block r s e id st).1
  unfolding write_record
  record-HasData r s e id st =
      let stored = (write_content keccak256 id title description bytes a st).1 in
      let has = content-HasData id st in
      let kept : (p : Slot)
          → is_data p ≡ true
          → (write_record keccak256 t title description bytes a block r s e id st).1 p ≡ stored p =
        λ p h.
          ground
            (arith, content-ok id st, (finish_record-Keeps p h t a block r s e id).at stored) in
      (
        kept (slot_gov_proposal id ProposalKey.data_len) refl ∙ has.0,
        HasChunks-same id 0 ((length bytes + 31) / 32) bytes stored _
            (λ j. kept (slot_gov_proposal_data_chunk id j) refl) has.1,
      )

  filed :
      (new id : ℕ) (st : Storage)
      → (file_proposal keccak256 t title description bytes a block new st).0 ≡ ok id
      → (id ≡ new)
        × HasData new bytes (file_proposal keccak256 t title description bytes a block new st).1
  unfolding file_proposal
  filed new id st h =
      let review = read_config_u64 ConfigKey.review_period st in
      let voting = read_config_u64 ConfigKey.voting_period st in
      let counted = store slot_gov_proposal_count new st in
      let has = record-HasData review (block + review) (block + review + voting) new counted in
      (ground arith, ground arith)

  -- A submission that succeeds has filed the proposal.
  submitted :
      (id : ℕ) (st : Storage)
      → (submit_proposal keccak256 t title description bytes a block st).0 ≡ ok id
      → HasData id bytes (submit_proposal keccak256 t title description bytes a block st).1
  unfolding submit_proposal
  submitted id st = go (open_submission t bytes a block st).0 (open_submission t bytes a block st).1
    where
      go :
          (r : Result GovError (Unit {0})) (st' : Storage)
          → (let next =
                file_proposal keccak256 t title description bytes a block
                  ((read_proposal_count st' + 1) % 2 ^ 64) in
              let out : Result GovError ℕ × Storage = elim r [
                | ok _ ↦ next st'
                | err e ↦ (err e, st')
              ] in
              out.0 ≡ ok id → HasData id bytes out.1)
      go (ok _) st' h =
          let new = (read_proposal_count st' + 1) % 2 ^ 64 in
          let (same, has) = filed new id st' h in
          subst
            (λ x.
              HasData x bytes (file_proposal keccak256 t title description bytes a block new st').1)
            (sym same) has
      go (err e) st' h = ground arith

-- The data of a proposal that was submitted, of at most 2 ^ 20 bytes, is read back as it was.
pub submitted_data_back :
    (keccak256 : List ℕ → ℕ) (t : ℕ) (title description bytes : List ℕ) (a block id : ℕ)
    (st : Storage)
    → length bytes ≤ max_execution_data_len
    → All IsByte bytes
    → (submit_proposal keccak256 t title description bytes a block st).0 ≡ ok id
    → read_proposal_execution_data id
        (submit_proposal keccak256 t title description bytes a block st).1
      ≡ bytes
submitted_data_back keccak256 t title description bytes a block id st le h done =
    let after = (submit_proposal keccak256 t title description bytes a block st).1 in
    let has = submitted keccak256 t title description bytes a block id st done in
    execution_data_back id bytes after le h (ground arith) has.1
