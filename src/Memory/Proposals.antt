-- ===== src/Memory/Proposals.antt =====
-- `apply_proposal` of backend/domain/memory.py.
use soul_claw.Base.{
  ℕ, String, Bool, true, false, not, ◌||◌, [], ◌∷◌, Option, none, some, Exec, Result, ok, err,
  key_error, value_error, Fields, field, flag, string, end, info, f_string, str_eq, or_else,
  if◌then◌else◌, pure, raise, lift, field_put, ◌>>=◌, ◌>>◌,
}
use soul_claw.Memory.State.{MemoryDb, MemoryEnv, Snapshot, snapshot, get_memory, emit_to, audit_to}
use soul_claw.Memory.Create.{create}
use soul_claw.Memory.Service.{supersede, archive, mark_verified, or_default}

-- The payload of a memory proposal: a key that may be missing is an option, or the empty text where the
-- code takes a false value for a missing one.
pub record ProposalPayload (F : Type 0) : Type 0 where
  pub memory_id : Option String
  pub kind : String
  pub content : Option String
  pub source : Option String
  pub pinned : Option Bool
  pub importance : Option F
  pub confidence : Option F
  pub stability : Option F
  pub confidence_delta : Option F
  pub metadata : Fields

pub record EvolutionProposal (F : Type 0) : Type 0 where
  pub id : String
  pub target_type : String
  pub action : String
  pub status : String
  pub payload : ProposalPayload F
  pub before_snapshot : Option (Snapshot F)
  pub after_snapshot : Fields
  pub result : Fields
  pub applied_at : Option ℕ

-- `payload[key]`
abbrev pub required {ℓ} : {A : Type ℓ} → String → Option A → Result A
required key none = err (key_error key)
required key (some a) = ok a

abbrev pub done : String → String → Fields
done action memory_id =
    field "ok" (flag true)
      (field "memory_id" (string memory_id) (field "action" (string action) end))

abbrev pub is_applyable : String → Bool
is_applyable status = str_eq status "pending" || str_eq status "approved"

-- `result | {"actor": actor}`
unfoldable pub with_actor : String → Fields → Fields
unfolding field_put
with_actor actor result = field_put "actor" (string actor) result

module _ {F : Type 0} where
  unfoldable pub apply_create :
      MemoryEnv F → ProposalPayload F → Exec (MemoryDb F) (Option (Snapshot F) × Fields)
  unfolding create lift pure
  apply_create env p = do
    content ← lift (required "content" p.content)
    let half = env.floats.ratio 1 2
    memory ← create env (record {
      kind = or_else p.kind "agent_note";
      content = content;
      source = or_else (or_default "" p.source) "proposal";
      pinned = or_default false p.pinned;
      importance = or_default half p.importance;
      confidence = or_default half p.confidence;
      stability = or_default half p.stability;
      supersedes_id = none;
      source_turn_id = "";
      metadata = p.metadata;
    })
    pure (none, done "create" memory.id)

  unfoldable pub apply_supersede :
      MemoryEnv F → ProposalPayload F → Exec (MemoryDb F) (Option (Snapshot F) × Fields)
  unfolding get_memory supersede lift pure
  apply_supersede env p = do
    memory_id ← lift (required "memory_id" p.memory_id)
    previous ← get_memory memory_id
    content ← lift (required "content" p.content)
    memory ← supersede env memory_id (record {
      kind = or_else p.kind previous.kind;
      content = content;
      source = some (or_default "proposal" p.source);
      pinned = some (or_default previous.pinned p.pinned);
      importance = some (or_default previous.importance p.importance);
      confidence = some (or_default previous.confidence p.confidence);
      stability = some (or_default previous.stability p.stability);
      metadata = p.metadata;
    })
    pure (
      some (snapshot previous),
      field "ok" (flag true) (
          field "memory_id" (string memory.id)
            (field "supersedes_id" (string memory_id) (field "action" (string "supersede") end))),
    )

  unfoldable pub apply_archive :
      MemoryEnv F → ProposalPayload F → Exec (MemoryDb F) (Option (Snapshot F) × Fields)
  unfolding get_memory archive lift pure
  apply_archive env p = do
    memory_id ← lift (required "memory_id" p.memory_id)
    previous ← get_memory memory_id
    archive env memory_id
    pure (some (snapshot previous), done "archive" memory_id)

  unfoldable pub apply_verify :
      MemoryEnv F → ProposalPayload F → Exec (MemoryDb F) (Option (Snapshot F) × Fields)
  unfolding get_memory mark_verified lift pure
  apply_verify env p = do
    memory_id ← lift (required "memory_id" p.memory_id)
    previous ← get_memory memory_id
    memory ← mark_verified env memory_id (or_default (env.floats.ratio 5 100) p.confidence_delta)
    pure (some (snapshot previous), done "verify" memory.id)

  -- the branches on `action`
  unfoldable pub apply_action :
      MemoryEnv F → String → ProposalPayload F → Exec (MemoryDb F) (Option (Snapshot F) × Fields)
  unfolding apply_create apply_supersede apply_archive apply_verify raise
  apply_action env action p =
      if str_eq action "create"
      then apply_create env p
      else if str_eq action "supersede"
      then apply_supersede env p
      else if str_eq action "archive"
      then apply_archive env p
      else if str_eq action "verify"
      then apply_verify env p
      else raise
          (value_error "memory proposal action must be create, supersede, archive, or verify")

  -- the row of an applied proposal, whose result is its snapshot and the actor
  unfoldable pub applied_row :
      MemoryEnv F
      → String
      → EvolutionProposal F
      → Option (Snapshot F) × Fields
      → EvolutionProposal F
  unfolding with_actor
  applied_row env actor p (before, result) = record p {
    status = "applied";
    before_snapshot = before;
    after_snapshot = result;
    result = with_actor actor result;
    applied_at = some env.now;
  }

  unfoldable pub apply_row :
      MemoryEnv F → String → EvolutionProposal F → Exec (MemoryDb F) (EvolutionProposal F)
  unfolding apply_action applied_row raise emit_to audit_to pure
  apply_row env actor p =
      if not (is_applyable p.status)
      then raise (value_error (f_string ("proposal is not applyable: " ∷ p.status ∷ [])))
      else if not (str_eq p.target_type "memory")
      then raise (value_error "only memory proposals are applyable here")
      else do
        outcome ← apply_action env p.action p.payload
        emit_to "memory.proposal.applied" info
            (field "proposal_id" (string p.id) (field "action" (string p.action) end))
        audit_to "memory.proposal.apply" "evolution_proposal" p.id
            (field "action" (string p.action) (field "actor" (string actor) end))
        pure (applied_row env actor p outcome)

  -- `apply_proposal`, for the row that `db.get` finds; the changed row is the result.
  unfoldable pub apply_proposal :
      MemoryEnv F
      → String
      → String
      → Option (EvolutionProposal F)
      → Exec (MemoryDb F) (EvolutionProposal F)
  unfolding apply_row raise
  apply_proposal env proposal_id actor none =
      raise (key_error (f_string ("proposal not found: " ∷ proposal_id ∷ [])))
  apply_proposal env proposal_id actor (some p) = apply_row env actor p
