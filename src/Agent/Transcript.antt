-- ===== src/Agent/Transcript.antt =====
-- What the calls and the rounds of a turn add to the transcript of its session.
use soul_claw.Base.{
  ℕ, zero, suc, ◌+◌, String, ◌≡◌, refl, sym, ap, ◌∙◌, List, [], ◌∷◌, ◌++◌, All, All-append,
  append-nil, Bool-cases, inl, inr, ◌⊎◌, Fields,
}
use mathlib.Core.List.{append_assoc}
use soul_claw.Agent.State.{
  Call, CallResult, Message, Interrupt, LlmReply, replied, rate_limited, circuit_open, failed,
  TranscriptMessage, AgentEnv, Turn, ask_llm, tell, record_message,
}
use soul_claw.Agent.Calls.{
  Round, completed, interrupted, outcome, execute_call, note_result, call_step, go_on, call_once,
  execute_from, execute_tool_calls, calls_of,
}
use soul_claw.Agent.Loop.{
  LoopState, LoopEnd, RoundEnd, ended, again, with_results, next_reply, follow_up, give_up,
  settle_round, run_round, next_round, start_state, continue_llm_loop, first_reply, run_llm,
}
use soul_claw.Agent.Start.{Draft, caller_step, execute_given, last_result}

module _ {S : Type 0} (env : AgentEnv S) (turn_id session_id : String) where
  abbrev pub IsToolMessage : TranscriptMessage → Type 0
  IsToolMessage m = (m.role ≡ "tool") × (m.turn_id ≡ turn_id) × (m.session_id ≡ session_id)

  -- The later transcript is the earlier one and tool messages of the turn.
  abbrev pub Grew : List TranscriptMessage → List TranscriptMessage → Type 0
  Grew before after =
      (ms : List TranscriptMessage) × ((after ≡ before ++ ms) × All IsToolMessage ms)

  pub same : (before : List TranscriptMessage) → Grew before before
  same before = ([], (sym (append-nil before), tt))

  pub Grew-trans : (a b c : List TranscriptMessage) → Grew a b → Grew b c → Grew a c
  Grew-trans a b c (ms, (e, h)) (ns, (f, g)) = (
    ms ++ ns,
    (
      f ∙ (ap (λ (l : List TranscriptMessage). l ++ ns) e ∙ append_assoc a ms ns),
      All-append IsToolMessage ms ns h g,
    ),
  )

  note_result-Grew :
      (metadata : Fields) (r : CallResult) (t : Turn S)
      → Grew t.transcript (note_result env turn_id session_id metadata r t).transcript
  unfolding note_result record_message
  note_result-Grew metadata r t = elim (Bool-cases env.has_conversation) [
    | inl e ↦ rw e (_ ∷ [], (refl, ((refl, refl, refl), tt)))
    | inr e ↦ rw e (same t.transcript)
  ]

  abbrev StepGrew : Turn S → (CallResult × Turn S) ⊎ (Interrupt × Turn S) → Type 0
  StepGrew t (inl (r, after)) = Grew t.transcript after.transcript
  StepGrew t (inr (i, after)) = Grew t.transcript after.transcript

  call_step-Grew :
      (index : ℕ) (results : List CallResult) (call : Call) (o : CallResult ⊎ (String × CallResult))
      (t : Turn S)
      → StepGrew t (call_step env turn_id session_id index results call o t)
  unfolding call_step
  call_step-Grew index results call (inl r) t = note_result-Grew _ r t
  call_step-Grew index results call (inr (id, r)) t = note_result-Grew _ r t

  go_on-Grew :
      (k : CallResult → Turn S → Round × Turn S) (x : (CallResult × Turn S) ⊎ (Interrupt × Turn S))
      (t : Turn S)
      → StepGrew t x
      → ((r : CallResult) (after : Turn S) → Grew after.transcript (k r after).1.transcript)
      → Grew t.transcript (go_on k x).1.transcript
  unfolding go_on
  go_on-Grew k (inl (r, after)) t h go = Grew-trans _ after.transcript _ h (go r after)
  go_on-Grew k (inr (i, after)) t h go = h

  execute_from-Grew :
      (index : ℕ) (results : List CallResult) (calls : List Call) (t : Turn S)
      → Grew t.transcript (execute_from env turn_id session_id index results calls t).1.transcript
  unfolding execute_from call_once execute_call
  execute_from-Grew index results [] t = same t.transcript
  execute_from-Grew index results (call ∷ calls) t =
      let (r, after) = execute_call env turn_id call t in
      go_on-Grew
        (λ result next.
          execute_from env turn_id session_id (index + 1) (results ++ (result ∷ [])) calls next)
        (call_step env turn_id session_id index results call (outcome call r) after) t
        (call_step-Grew index results call (outcome call r) after)
        (λ result next. execute_from-Grew (index + 1) (results ++ (result ∷ [])) calls next)

  execute_tool_calls-Grew :
      (calls : List Call) (t : Turn S)
      → Grew t.transcript (execute_tool_calls env turn_id session_id calls t).1.transcript
  unfolding execute_tool_calls
  execute_tool_calls-Grew calls t = elim (Bool-cases env.has_tools) [
    | inl e ↦ rw e (execute_from-Grew 0 [] calls t)
    | inr e ↦ rw e (same t.transcript)
  ]

  next_reply-Grew :
      (reply : LlmReply) (s : LoopState) (t : Turn S)
      → Grew t.transcript (next_reply (reply, t) s).1.transcript
  unfolding next_reply give_up tell
  next_reply-Grew (rate_limited policy retry_after) s t = same t.transcript
  next_reply-Grew (circuit_open e) s t = same t.transcript
  next_reply-Grew (failed e) s t = same t.transcript
  next_reply-Grew (replied response) s t = same t.transcript

  settle_round-Grew :
      (calls : List Call) (round_index : ℕ) (s : LoopState) (r : Round) (t : Turn S)
      → Grew t.transcript (settle_round env calls round_index s (r, t)).1.transcript
  unfolding settle_round follow_up ask_llm
  settle_round-Grew calls round_index s (completed rs) t =
      next_reply-Grew _ (with_results calls rs s) (record t { completions = t.completions + 1 })
  settle_round-Grew calls round_index s (interrupted i) t = same t.transcript

  run_round-Grew :
      (calls : List Call) (round_index : ℕ) (s : LoopState) (t : Turn S)
      → Grew t.transcript (run_round env turn_id session_id round_index calls s t).1.transcript
  unfolding run_round tell
  run_round-Grew [] round_index s t = same t.transcript
  run_round-Grew (call ∷ calls) round_index s t =
      let (r, after) = execute_tool_calls env turn_id session_id (call ∷ calls) t in
      Grew-trans _ after.transcript _ (execute_tool_calls-Grew (call ∷ calls) t)
        (settle_round-Grew (call ∷ calls) round_index s r after)

  next_round-Grew :
      (k : LoopState → Turn S → LoopEnd × Turn S) (r : RoundEnd) (t : Turn S)
      → ((s : LoopState) (after : Turn S) → Grew after.transcript (k s after).1.transcript)
      → Grew t.transcript (next_round k (r, t)).1.transcript
  unfolding next_round
  next_round-Grew k (ended e) t go = same t.transcript
  next_round-Grew k (again s) t go = go s t

  continue_llm_loop-Grew :
      (rounds round_index : ℕ) (s : LoopState) (t : Turn S)
      → Grew t.transcript
          (continue_llm_loop env turn_id session_id rounds round_index s t).1.transcript
  unfolding continue_llm_loop tell
  continue_llm_loop-Grew zero round_index s t = same t.transcript
  continue_llm_loop-Grew (suc rounds) round_index s t =
      let calls = calls_of s.response.tool_calls in
      let (r, after) = run_round env turn_id session_id round_index calls s t in
      Grew-trans _ after.transcript _ (run_round-Grew calls round_index s t) (
        next_round-Grew (continue_llm_loop env turn_id session_id rounds (round_index + 1)) r after
          (continue_llm_loop-Grew rounds (round_index + 1)))

  first_reply-Grew :
      (messages : List Message) (reply : LlmReply) (t : Turn S)
      → Grew t.transcript (first_reply env turn_id session_id messages (reply, t)).1.transcript
  unfolding first_reply give_up tell
  first_reply-Grew messages (rate_limited policy retry_after) t = same t.transcript
  first_reply-Grew messages (circuit_open e) t = same t.transcript
  first_reply-Grew messages (failed e) t = same t.transcript
  first_reply-Grew messages (replied response) t =
      continue_llm_loop-Grew 4 0 (start_state response messages) t

  pub run_llm-Grew :
      (messages : List Message) (t : Turn S)
      → Grew t.transcript (run_llm env turn_id session_id messages t).1.transcript
  unfolding run_llm ask_llm
  run_llm-Grew messages t = elim (Bool-cases env.llm_configured) [
    | inl e ↦ rw e (first_reply-Grew messages _ (record t { completions = t.completions + 1 }))
    | inr e ↦ rw e (same t.transcript)
  ]

  pub execute_given-Grew :
      (calls : List Call) (d : Draft) (t : Turn S)
      → Grew t.transcript (execute_given env turn_id session_id calls d t).1.transcript
  unfolding execute_given caller_step execute_call
  execute_given-Grew [] d t = same t.transcript
  execute_given-Grew (call ∷ calls) d t =
      let (r, called) = execute_call env turn_id call t in
      let (after, next) = caller_step env turn_id session_id call d (r, called) in
      Grew-trans _ next.transcript _ (note_result-Grew _ (last_result _ after.tool_results) called)
        (execute_given-Grew calls after next)
