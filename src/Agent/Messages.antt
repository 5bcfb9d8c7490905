-- ===== src/Agent/Messages.antt =====
-- The messages that a turn leaves in the transcript of its session.
use soul_claw.Base.{
  String, Bool, true, false, not, ◌≡◌, refl, ◌∙◌, List, [], ◌∷◌, ◌++◌, All, Bool-cases, inl, inr,
  Option, none, some, Result, ok, err, field, string, end, is_empty, is_some, ◌&&◌,
}
use mathlib.Core.List.{append_assoc}
use soul_claw.Tools.State.{ToolDb, Approval, find_approval}
use soul_claw.Agent.State.{
  Call, TranscriptMessage, Checkpoint, AgentEnv, Turn, tell, record_message,
}
use soul_claw.Agent.Loop.{LoopEnd, answered, stopped, run_llm}
use soul_claw.Agent.Resume.{TurnResult, save_approval_checkpoint, save_found}
use soul_claw.Agent.Start.{
  TurnEnv, Draft, blank_draft, settle_llm, checkpoint_of, settle_delegation, delegate_with,
  draft_turn,
}
use soul_claw.Agent.Answers.{Delegation, Gathered, should_delegate}
use soul_claw.Agent.Whole.{
  message_of, record_answer, finish_turn, begin_turn, assembled, run_turn, unread_wiki,
}
use soul_claw.Agent.Transcript.{Grew, IsToolMessage, same, run_llm-Grew, execute_given-Grew}

joined :
    (a b c d ms : List TranscriptMessage) (u v : TranscriptMessage)
    → b ≡ a ++ (u ∷ [])
    → c ≡ b ++ ms
    → d ≡ c ++ (v ∷ [])
    → d ≡ a ++ (u ∷ (ms ++ (v ∷ [])))
joined a b c d ms u v e f g = rw (g, f, e) (simp (append_assoc) refl)

module _ {S : Type 0} where
  save_found-same :
      (found : Option Approval) (id : String) (cp : Checkpoint) (t : Turn S)
      → (save_found found id cp t).transcript ≡ t.transcript
  save_found-same none id cp t = refl
  save_found-same (some a) id cp t = refl

  save_approval_checkpoint-same :
      (id : String) (cp : Checkpoint) (t : Turn S)
      → (save_approval_checkpoint id cp t).transcript ≡ t.transcript
  unfolding save_approval_checkpoint
  save_approval_checkpoint-same id cp t = elim (Bool-cases (is_empty id)) [
    | inl e ↦ rw e refl
    | inr e ↦ rw e (save_found-same (find_approval id t.db.approvals) id cp t)
  ]

  settle_llm-same :
      (turn_id session_id : String) (e : LoopEnd) (t : Turn S)
      → (settle_llm turn_id session_id (e, t)).1.transcript ≡ t.transcript
  unfolding settle_llm tell
  settle_llm-same turn_id session_id (answered a) t = refl
  settle_llm-same turn_id session_id (stopped i) t =
      save_approval_checkpoint-same i.approval_id (checkpoint_of turn_id session_id i) t

  settle_delegation-same :
      (message : String) (r : Result Delegation × ToolDb S) (t : Turn S)
      → (settle_delegation message r t).1.transcript ≡ t.transcript
  unfolding settle_delegation tell
  settle_delegation-same message (ok d, db) t = refl
  settle_delegation-same message (err e, db) t = refl

  delegate_with-same :
      (act : Option (String → ToolDb S → Result Delegation × ToolDb S)) (wanted : Bool)
      (message : String) (t : Turn S)
      → (delegate_with act wanted message t).1.transcript ≡ t.transcript
  delegate_with-same none wanted message t = refl
  delegate_with-same (some act) false message t = refl
  delegate_with-same (some act) true message t = settle_delegation-same message (act message t.db) t

  draft_turn-Grew :
      (env : TurnEnv S) (turn_id session_id message : String) (before : List TranscriptMessage)
      (calls : Option (List Call)) (d : Option Delegation) (t : Turn S)
      → Grew env.agent turn_id session_id t.transcript
          (draft_turn env turn_id session_id message before calls (d, t)).1.transcript
  unfolding draft_turn
  draft_turn-Grew env turn_id session_id message before (some calls) d t =
      elim (Bool-cases env.agent.has_tools) [
        | inl e ↦ rw e (execute_given-Grew env.agent turn_id session_id calls blank_draft t)
        | inr e ↦ rw e (same env.agent turn_id session_id t.transcript)
      ]
  draft_turn-Grew env turn_id session_id message before none (some d) t =
      same env.agent turn_id session_id t.transcript
  draft_turn-Grew env turn_id session_id message before none none t =
      let messages = env.prompt session_id message before t.db in
      let (e, after) = run_llm env.agent turn_id session_id messages t in
      rw (settle_llm-same turn_id session_id e after)
        (run_llm-Grew env.agent turn_id session_id messages t)

  finish_turn-said :
      (env : AgentEnv S) (turn_id session_id : String) (g : Gathered) (d : Draft) (t : Turn S)
      → env.has_conversation ≡ true
      → let (r, after) = finish_turn env turn_id session_id g (d, t) in
        after.transcript
        ≡ t.transcript
          ++ (message_of "assistant" session_id turn_id r.answer
                (field "llm_status" (string r.llm_status) end)
              ∷ [])
  unfolding finish_turn record_answer record_message tell
  finish_turn-said env turn_id session_id g d t talks =
      rw talks
        (elim (Bool-cases (unread_wiki d.tool_results)) [ inl e ↦ rw e refl | inr e ↦ rw e refl ])

  begin_turn-said :
      (env : TurnEnv S) (turn_id session_id message : String) (t : Turn S)
      → env.agent.has_conversation ≡ true
      → (begin_turn env turn_id session_id message t).transcript
        ≡ t.transcript ++ (message_of "user" session_id turn_id message end ∷ [])
  unfolding begin_turn record_message tell
  begin_turn-said env turn_id session_id message t talks = rw talks refl

  -- The messages of a turn, in their order
  abbrev pub Spoken : AgentEnv S → String → String → Turn S → TurnResult × Turn S → Type 0
  Spoken env message session_id t (r, after) =
      (ms : List TranscriptMessage) × ((after.transcript
          ≡ t.transcript
            ++ (message_of "user" session_id r.turn_id message end
                ∷ (ms
                    ++ (message_of "assistant" session_id r.turn_id r.answer
                          (field "llm_status" (string r.llm_status) end)
                        ∷ []))))
        × All (IsToolMessage env r.turn_id session_id) ms)

  finish_turn-Spoken :
      (env : AgentEnv S) (turn_id session_id message : String) (g : Gathered) (d : Draft)
      (t begun later : Turn S)
      → env.has_conversation ≡ true
      → begun.transcript ≡ t.transcript ++ (message_of "user" session_id turn_id message end ∷ [])
      → Grew env turn_id session_id begun.transcript later.transcript
      → Spoken env message session_id t (finish_turn env turn_id session_id g (d, later))
  unfolding finish_turn
  finish_turn-Spoken env turn_id session_id message g d t begun later talks e (ms, (f, tools)) = (
    ms,
    (
      joined t.transcript begun.transcript later.transcript _ ms _ _ e f
          (finish_turn-said env turn_id session_id g d later talks),
      tools,
    ),
  )

  -- A turn adds to the transcript the user's message, then messages of tools of this turn only, and last
  -- one message of the assistant with the answer and the status that the turn returns: also where the
  -- model fails, a call waits for an approval, or the message was delegated.
  pub run_turn-Spoken :
      (env : TurnEnv S) (message session_id : String) (calls : Option (List Call)) (t : Turn S)
      → env.agent.has_conversation ≡ true
      → Spoken env.agent message session_id t (run_turn env message session_id calls t)
  unfolding run_turn assembled tell
  run_turn-Spoken env message session_id calls t talks =
      let turn_id = env.agent.tool_env.uuid4 t.db.supply in
      let begun = begin_turn env turn_id session_id message t in
      let wanted = not (is_some calls) && should_delegate env.agent.tool_env.lower message in
      let (d, delegated) = delegate_with env.delegate wanted message begun in
      let (none_or, ready) = assembled env message (d, delegated) in
      let (draft, later) =
        draft_turn env turn_id session_id message t.transcript calls (none_or, ready) in
      finish_turn-Spoken env.agent turn_id session_id message (env.gather message delegated.db)
        draft t delegated later talks
        (delegate_with-same env.delegate wanted message begun
          ∙ begin_turn-said env turn_id session_id message t talks)
        (draft_turn-Grew env turn_id session_id message t.transcript calls none_or ready)
