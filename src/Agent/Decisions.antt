-- ===== src/Agent/Decisions.antt =====
-- What the decisions on an approval do to the turn that waits for it.
use soul_claw.Base.{
  String, Bool, true, false, ◌≡◌, ◌∙◌, sym, refl, inl, inr, List, [], ◌∷◌, some, arith, ok, Fields,
  end, field, field_get, field_put, string, text_or_empty, ap, str_eq, eq_iff, is_empty, or_else,
  if◌then◌else◌, Bool-cases, member,
}
use soul_claw.Tools.State.{Approval, find_approval, put_approval}
use soul_claw.Agent.State.{Checkpoint, AgentEnv, Turn}
use soul_claw.Agent.Resume.{TurnResult, find_checkpoint, save_row, resolved, finish_resumed_turn}
use soul_claw.Agent.Decide.{set_edited, decided, execute_resumed, decide, resume_turn}

find_approval-put_approval :
    (a b : Approval) (id : String) (as' : List Approval)
    → find_approval id as' ≡ some b
    → a.id ≡ id
    → find_approval id (put_approval a as') ≡ some a
unfolding find_approval put_approval
find_approval-put_approval a b id [] h e = ground arith
find_approval-put_approval a b id (c ∷ cs) h e =
    ground (
      arith,
      eq_iff c.id a.id,
      eq_iff c.id id,
      eq_iff a.id id,
      find_approval-put_approval a b id cs,
    )

put_approval-twice :
    (a b : Approval) (as' : List Approval)
    → a.id ≡ b.id
    → put_approval a (put_approval b as') ≡ put_approval a as'
unfolding put_approval
put_approval-twice a b [] e = refl
put_approval-twice a b (c ∷ cs) e =
    ground (arith, eq_iff c.id a.id, eq_iff c.id b.id, eq_iff a.id b.id, put_approval-twice a b cs)

save_row-twice :
    {S : Type 0} (a b : Approval) (t : Turn S)
    → a.id ≡ b.id
    → save_row a (save_row b t) ≡ save_row a t
save_row-twice a b t e =
    ap (λ rows. record t { db = record (t.db) { approvals = rows } })
      (put_approval-twice a b t.db.approvals e)

set_edited-same :
    (decision : String) (d : Fields) (a : Approval)
    → str_eq decision "edit" ≡ false
    → set_edited decision d a ≡ a
set_edited-same decision end a h = refl
set_edited-same decision (field k v d) a h = rw h refl

-- The row as another decision left it: the same but for its status
abbrev pub with_status : String → Approval → Approval
with_status status a = record a { status = status }

module _ {S : Type 0} (env : AgentEnv S) (cp : Checkpoint) (response : String) where
  decide-status :
      (chosen status : String) (a b : Approval) (t : Turn S)
      → a.id ≡ b.id
      → decide env cp (with_status status a) chosen response (save_row b t)
        ≡ decide env cp a chosen response t
  unfolding decide
  decide-status chosen status a b t e =
      let answer = or_else response (
        or_else (text_or_empty (field_get "response" a.resume_state))
          "Handled by human response.") in
      let told =
        resolved env "cancelled"
          (decided "respond" (field_put "response" (string answer) a.resume_state)) a in
      let refused = resolved env "rejected" (decided "reject" a.resume_state) a in
      let taken = resolved env "approved" a.resume_state a in
      elim (Bool-cases (str_eq chosen "respond")) [
        | inl responds ↦
            rw responds
              (ap (finish_resumed_turn env cp answer "responded" told) (save_row-twice told b t e))
        | inr other ↦ rw other (elim (Bool-cases (str_eq chosen "reject")) [
          | inl rejects ↦ rw rejects (
              ap
                (finish_resumed_turn env cp
                  (or_else response "Approval was rejected, so I stopped that tool call.")
                  "rejected" refused)
                (save_row-twice refused b t e))
          | inr runs ↦
              rw runs (ap (execute_resumed env cp taken chosen) (save_row-twice taken b t e))
        ])
      ]

-- The checks are passed, and the decision is as the caller normalized it.
resume_turn-decide :
    {S : Type 0} (env : AgentEnv S) (id decision response : String) (edited : Fields) (t : Turn S)
    (approval : Approval) (cp : Checkpoint)
    → find_approval id t.db.approvals ≡ some approval
    → find_checkpoint id t.checkpoints ≡ some cp
    → is_empty cp.turn_id ≡ false
    → (chosen : String) → or_else (env.normalize decision) "approve" ≡ chosen
    → member chosen ("approve" ∷ "edit" ∷ "reject" ∷ "respond" ∷ []) ≡ true
    → resume_turn env id decision edited response t
      ≡ decide env cp (set_edited chosen edited approval) chosen response t
unfolding resume_turn
resume_turn-decide env id decision response edited t approval cp found saved of_turn chosen e
      valid =
    rw found (rw saved (rw of_turn (rw e (rw valid refl))))

set_edited-id :
    (decision : String) (d : Fields) (a : Approval) → (set_edited decision d a).id ≡ a.id
set_edited-id decision end a = refl
set_edited-id decision (field k v d) a = ground arith

set_edited-status :
    (decision status : String) (d : Fields) (a : Approval)
    → set_edited decision d (with_status status a) ≡ with_status status (set_edited decision d a)
set_edited-status decision status end a = refl
set_edited-status decision status (field k v d) a = elim (Bool-cases (str_eq decision "edit")) [
  | inl edits ↦ rw edits refl
  | inr other ↦ rw other refl
]

module _ {S : Type 0} (env : AgentEnv S) (id decision response : String) (edited : Fields)
    (t : Turn S) (approval : Approval) (cp : Checkpoint)
    (found : find_approval id t.db.approvals ≡ some approval)
    (saved : find_checkpoint id t.checkpoints ≡ some cp)
    (of_turn : is_empty cp.turn_id ≡ false) where
  -- Rejecting a call, or responding in its place, runs no tool and asks the model for nothing: the tool
  -- runs, the handlers' state and the count of completions stay, and the turn ends `rejected` or
  -- `responded` with the response that was given, if one was.
  pub resume_without_call :
      (rejects : Bool)
      → env.normalize decision ≡ (if rejects then "reject" else "respond")
      → let (r, after) = resume_turn env id decision edited response t in
        (x : TurnResult) × (r ≡ ok x)
        × (x.status ≡ (if rejects then "rejected" else "responded"))
        × (is_empty response ≡ false → x.answer ≡ response)
        × (after.db.runs ≡ t.db.runs)
        × (after.db.rest ≡ t.db.rest)
        × (after.completions ≡ t.completions)
  unfolding decide
  resume_without_call true e =
      let same = set_edited-same "reject" edited approval refl in
      rw
        (resume_turn-decide env id decision response edited t approval cp found saved of_turn
          "reject" (rw e refl) refl)
        (rw same (_, refl, refl, ground arith, ground arith, ground arith, ground arith))
  resume_without_call false e =
      let same = set_edited-same "respond" edited approval refl in
      rw
        (resume_turn-decide env id decision response edited t approval cp found saved of_turn
          "respond" (rw e refl) refl)
        (rw same (_, refl, refl, ground arith, ground arith, ground arith, ground arith))

  -- The status of the approval plays no part: with any other status in its row, a valid decision has the
  -- same outcome and leaves the same session. So a call whose approval was rejected, or that was run
  -- already, is run again when `resume_turn` is called with `approve`.
  pub resume_ignores_status :
      (status : String)
      → approval.id ≡ id
      → member
          (or_else (env.normalize decision) "approve")
          ("approve" ∷ "edit" ∷ "reject" ∷ "respond" ∷ [])
        ≡ true
      → resume_turn env id decision edited response
          (save_row (record approval { status = status }) t)
        ≡ resume_turn env id decision edited response t
  resume_ignores_status status same_id valid =
      let chosen = or_else (env.normalize decision) "approve" in
      let other = with_status status approval in
      let found_other = find_approval-put_approval other approval id t.db.approvals found same_id in
      let a = set_edited chosen edited approval in
      resume_turn-decide env id decision response edited (save_row other t) other cp found_other
        saved of_turn chosen refl valid
      ∙ ap (λ b. decide env cp b chosen response (save_row other t))
          (set_edited-status chosen status edited approval)
      ∙ decide-status env cp response chosen status a other t (set_edited-id chosen edited approval)
      ∙ sym (
          resume_turn-decide env id decision response edited t approval cp found saved of_turn
            chosen refl valid)
