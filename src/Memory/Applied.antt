-- ===== src/Memory/Applied.antt =====
-- A proposal on a memory is applied once.
use soul_claw.Base.{
  String, not, ◌≡◌, refl, Option, some, Result, ok, err, value_error, f_string, [], ◌∷◌, Fields,
  field, string, end, info, arith, str_eq, Bool-cases, inl, inr, pure, raise, then_do, ◌>>◌,
}
use soul_claw.Memory.State.{MemoryDb, MemoryEnv, Snapshot, emit_to, audit_to}
use soul_claw.Memory.Proposals.{
  EvolutionProposal, is_applyable, applied_row, apply_row, apply_action, apply_proposal,
}

module _ {F : Type 0} (env : MemoryEnv F) where
  settled :
      (actor : String) (p p' : EvolutionProposal F)
      (outcome : Result (Option (Snapshot F) × Fields) × MemoryDb F)
      → (then_do outcome (λ o.
          emit_to "memory.proposal.applied" info
            (field "proposal_id" (string p.id) (field "action" (string p.action) end))
          >> (audit_to "memory.proposal.apply" "evolution_proposal" p.id
                (field "action" (string p.action) (field "actor" (string actor) end))
              >> pure (applied_row env actor p o)))).0
        ≡ ok p'
      → p'.status ≡ "applied"
  unfolding emit_to audit_to pure applied_row
  settled actor p p' (ok o, db) e = ground arith
  settled actor p p' (err x, db) e = ground arith

  apply_row-status :
      (actor : String) (p p' : EvolutionProposal F) (db : MemoryDb F)
      → (apply_row env actor p db).0 ≡ ok p'
      → p'.status ≡ "applied"
  unfolding apply_row raise
  apply_row-status actor p p' db e = elim (Bool-cases (not (is_applyable p.status))) [
    | inl closed ↦
        let clash : ◌≡◌ {A = Result (EvolutionProposal F)}
            (err (value_error (f_string ("proposal is not applyable: " ∷ p.status ∷ [])))) (ok p') =
          rw closed at e in
        ground arith
    | inr open_row ↦ elim (Bool-cases (not (str_eq p.target_type "memory"))) [
      | inl other ↦
          let clash : ◌≡◌ {A = Result (EvolutionProposal F)}
              (err (value_error "only memory proposals are applyable here")) (ok p') =
            rw (open_row, other) at e in
          ground arith
      | inr own ↦
          settled actor p p' (apply_action env p.action p.payload db) (rw (open_row, own) at e)
    ]
  ]

  closed_row :
      (proposal_id actor : String) (p : EvolutionProposal F) (db : MemoryDb F)
      → p.status ≡ "applied"
      → apply_proposal env proposal_id actor (some p) db
        ≡ (err (value_error "proposal is not applyable: applied"), db)
  unfolding apply_proposal apply_row raise
  closed_row proposal_id actor p db e = rw e refl

  -- A proposal that was applied cannot be applied again, in whatever state and by whomever: the second
  -- call is refused and changes nothing.
  pub applied_once :
      (proposal_id actor other : String) (p p' : EvolutionProposal F) (db later : MemoryDb F)
      → (apply_proposal env proposal_id actor (some p) db).0 ≡ ok p'
      → apply_proposal env proposal_id other (some p') later
        ≡ (err (value_error "proposal is not applyable: applied"), later)
  unfolding apply_proposal
  applied_once proposal_id actor other p p' db later e =
      closed_row proposal_id other p' later (apply_row-status actor p p' db e)
