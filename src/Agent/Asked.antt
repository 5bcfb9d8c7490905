-- ===== src/Agent/Asked.antt =====
-- How often a whole turn asks the model.
use soul_claw.Base.{
  ◌+◌, ◌≤◌, String, Bool, true, false, ◌≡◌, refl, List, [], ◌∷◌, Option, none, some, arith, Result,
  ok, err, is_some, not, ◌&&◌,
}
use soul_claw.Tools.State.{ToolDb}
use soul_claw.Agent.State.{
  Call, TranscriptMessage, AgentEnv, Turn, tell, record_message, summarized,
}
use soul_claw.Agent.Calls.{execute_call, note_result}
use soul_claw.Agent.Loop.{LoopEnd, answered, stopped, run_llm}
use soul_claw.Agent.Resume.{save_approval_checkpoint}
use soul_claw.Agent.Answers.{Delegation, Gathered, should_delegate}
use soul_claw.Agent.Start.{
  TurnEnv, Draft, caller_step, execute_given, settle_llm, settle_delegation, delegate_with,
  draft_turn, blank_draft,
}
use soul_claw.Agent.Whole.{record_answer, finish_turn, begin_turn, assembled, run_turn}
use soul_claw.Agent.Rounds.{run_llm-completions}

module _ {S : Type 0} where
  execute_given-completions :
      (env : AgentEnv S) (turn_id session_id : String) (calls : List Call) (d : Draft) (t : Turn S)
      → (execute_given env turn_id session_id calls d t).1.completions ≡ t.completions
  unfolding execute_given caller_step execute_call note_result record_message
  execute_given-completions env turn_id session_id [] d t = refl
  execute_given-completions env turn_id session_id (call ∷ calls) d t =
      let (after, next) =
        caller_step env turn_id session_id call d (execute_call env turn_id call t) in
      ground (arith, execute_given-completions env turn_id session_id calls after next)

  settle_llm-completions :
      (turn_id session_id : String) (e : LoopEnd) (t : Turn S)
      → (settle_llm turn_id session_id (e, t)).1.completions ≡ t.completions
  unfolding settle_llm tell save_approval_checkpoint
  settle_llm-completions turn_id session_id (answered a) t = refl
  settle_llm-completions turn_id session_id (stopped i) t = ground arith

  settled-completions :
      (message : String) (r : Result Delegation) (db : ToolDb S) (t : Turn S)
      → (settle_delegation message (r, db) t).1.completions ≡ t.completions
  unfolding settle_delegation tell
  settled-completions message (ok d) db t = refl
  settled-completions message (err e) db t = refl

  delegate_with-completions :
      (act : Option (String → ToolDb S → Result Delegation × ToolDb S)) (wanted : Bool)
      (message : String) (t : Turn S)
      → (delegate_with act wanted message t).1.completions ≡ t.completions
  delegate_with-completions none wanted message t = refl
  delegate_with-completions (some act) false message t = refl
  delegate_with-completions (some act) true message t =
      let (r, db) = act message t.db in settled-completions message r db t

  draft_turn-completions :
      (env : TurnEnv S) (turn_id session_id message : String) (before : List TranscriptMessage)
      (calls : Option (List Call)) (d : Option Delegation) (t : Turn S)
      → (draft_turn env turn_id session_id message before calls (d, t)).1.completions
        ≤ t.completions + 5
  unfolding draft_turn
  draft_turn-completions env turn_id session_id message before (some calls) d t =
      ground (arith, execute_given-completions env.agent turn_id session_id calls blank_draft t)
  draft_turn-completions env turn_id session_id message before none (some d) t = omega arith
  draft_turn-completions env turn_id session_id message before none none t =
      let messages = env.prompt session_id message before t.db in
      let (e, after) = run_llm env.agent turn_id session_id messages t in
      omega (
        arith,
        settle_llm-completions turn_id session_id e after,
        run_llm-completions env.agent turn_id session_id messages t,
      )

  record_answer-completions :
      (env : AgentEnv S) (session_id turn_id answer status : String) (t : Turn S)
      → (record_answer env session_id turn_id answer status t).completions ≤ t.completions + 1
  unfolding record_answer record_message summarized
  record_answer-completions env session_id turn_id answer status t = ground arith

  finish_turn-completions :
      (env : AgentEnv S) (turn_id session_id : String) (g : Gathered) (d : Draft) (t : Turn S)
      → (finish_turn env turn_id session_id g (d, t)).1.completions ≤ t.completions + 1
  unfolding finish_turn tell
  finish_turn-completions env turn_id session_id g d t =
      ground (arith, record_answer-completions env session_id turn_id)

  begin_turn-completions :
      (env : TurnEnv S) (turn_id session_id message : String) (t : Turn S)
      → (begin_turn env turn_id session_id message t).completions ≡ t.completions
  unfolding begin_turn tell record_message
  begin_turn-completions env turn_id session_id message t = ground arith

  assembled-completions :
      (env : TurnEnv S) (message : String) (d : Option Delegation) (t : Turn S)
      → (assembled env message (d, t)).1.completions ≡ t.completions
  unfolding assembled tell
  assembled-completions env message d t = refl

  -- A turn asks the model for at most six completions, five in its tool loop and one for the summary of
  -- the conversation, whatever it answers, whatever the tools do, and whoever the message is delegated to.
  pub run_turn-completions :
      (env : TurnEnv S) (message session_id : String) (calls : Option (List Call)) (t : Turn S)
      → (run_turn env message session_id calls t).1.completions ≤ t.completions + 6
  unfolding run_turn
  run_turn-completions env message session_id calls t =
      let turn_id = env.agent.tool_env.uuid4 t.db.supply in
      let begun = begin_turn env turn_id session_id message t in
      let wanted = not (is_some calls) && should_delegate env.agent.tool_env.lower message in
      let (delegation, next) = delegate_with env.delegate wanted message begun in
      let (d, ready) = assembled env message (delegation, next) in
      let (draft, drafted) =
        draft_turn env turn_id session_id message t.transcript calls (d, ready) in
      let closing =
        finish_turn-completions env.agent turn_id session_id (env.gather message next.db) draft
          drafted in
      omega (
        arith,
        closing,
        draft_turn-completions env turn_id session_id message t.transcript calls d ready,
        assembled-completions env message delegation next,
        delegate_with-completions env.delegate wanted message begun,
        begin_turn-completions env turn_id session_id message t,
      )
