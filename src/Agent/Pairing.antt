-- ===== src/Agent/Pairing.antt =====
-- The order of the messages that the loop sends: each call of the assistant is answered by a message
-- with its id before anything else is said.
use soul_claw.Base.{
  ℕ, zero, suc, ◌+◌, String, Bool, true, false, ◌&&◌, ◌≡◌, refl, Bool-cases, inl, inr, List, [],
  ◌∷◌, ◌++◌, arith, length, str_eq, eq_refl,
}
use soul_claw.Agent.State.{
  Call, CallResult, Message, content_message, assistant_calls, tool_message, LlmReply, replied,
  rate_limited, circuit_open, failed, AgentEnv, Turn, ask_llm,
}
use soul_claw.Agent.Calls.{
  Round, completed, interrupted, execute_tool_calls, calls_of, name_calls, tool_messages,
  append_tool_messages,
}
use soul_claw.Agent.Loop.{
  LoopState, LoopEnd, answered, stopped, RoundEnd, ended, again, with_results, next_reply,
  settle_round, run_round, next_round, start_state, continue_llm_loop, first_reply, run_llm,
}
use soul_claw.Agent.Pending.{completed-length}

abbrev pub ids_of : List Call → List String
ids_of [] = []
ids_of (c ∷ cs) = c.id ∷ ids_of cs

-- With these ids unanswered, the messages answer them in order, and later calls likewise.
abbrev pub paired : List String → List Message → Bool
paired [] [] = true
paired (id ∷ ids) [] = false
paired [] (content_message role text ∷ ms) = paired [] ms
paired (id ∷ ids) (content_message role text ∷ ms) = false
paired [] (assistant_calls calls ∷ ms) = paired (ids_of calls) ms
paired (id ∷ ids) (assistant_calls calls ∷ ms) = false
paired [] (tool_message j result ∷ ms) = false
paired (id ∷ ids) (tool_message j result ∷ ms) = str_eq id j && paired ids ms

paired-append :
    (ids : List String) (ms ns : List Message)
    → paired ids ms ≡ true
    → paired [] ns ≡ true
    → paired ids (ms ++ ns) ≡ true
paired-append [] [] ns h k = k
paired-append (id ∷ ids) [] ns h k = ground arith
paired-append [] (content_message role text ∷ ms) ns h k = paired-append [] ms ns h k
paired-append (id ∷ ids) (content_message role text ∷ ms) ns h k = ground arith
paired-append [] (assistant_calls calls ∷ ms) ns h k = paired-append (ids_of calls) ms ns h k
paired-append (id ∷ ids) (assistant_calls calls ∷ ms) ns h k = ground arith
paired-append [] (tool_message j result ∷ ms) ns h k = ground arith
paired-append (id ∷ ids) (tool_message j result ∷ ms) ns h k =
    ground (arith, paired-append ids ms ns)

paired-tool_messages :
    (calls : List Call) (results : List CallResult)
    → length results ≡ length calls
    → paired (ids_of calls) (tool_messages calls results) ≡ true
unfolding tool_messages
paired-tool_messages [] results e = refl
paired-tool_messages (c ∷ calls) [] e = ground arith
paired-tool_messages (c ∷ calls) (r ∷ results) e =
    ground (arith, eq_refl c.id, paired-tool_messages calls results)

length-name_calls : (index : ℕ) (calls : List Call) → length (name_calls index calls) ≡ length calls
unfolding name_calls
length-name_calls index [] = refl
length-name_calls index (c ∷ calls) = ground (arith, length-name_calls (index + 1) calls)

append_tool_messages-paired :
    (messages : List Message) (calls : List Call) (results : List CallResult)
    → paired [] messages ≡ true
    → length results ≡ length calls
    → paired [] (append_tool_messages messages (name_calls 0 calls) results) ≡ true
unfolding append_tool_messages
append_tool_messages-paired messages calls results h e =
    paired-append [] messages _ h (
      paired-tool_messages (name_calls 0 calls) results (ground (arith, length-name_calls 0 calls)))

-- The messages that a turn ends with, to be answered or kept in the checkpoint
abbrev pub messages_of : LoopEnd → List Message
messages_of (answered a) = a.messages
messages_of (stopped i) = i.messages

abbrev pub PairedEnd : RoundEnd → Type 0
PairedEnd (ended e) = paired [] (messages_of e) ≡ true
PairedEnd (again s) = paired [] s.messages ≡ true

module _ {S : Type 0} (env : AgentEnv S) (turn_id session_id : String)
    (tools : env.has_tools ≡ true) where
  next_reply-PairedEnd :
      (reply : LlmReply) (s : LoopState) (t : Turn S)
      → paired [] s.messages ≡ true
      → PairedEnd (next_reply (reply, t) s).0
  unfolding next_reply
  next_reply-PairedEnd (rate_limited policy retry_after) s t h = h
  next_reply-PairedEnd (circuit_open e) s t h = h
  next_reply-PairedEnd (failed e) s t h = h
  next_reply-PairedEnd (replied response) s t h = h

  settle_round-PairedEnd :
      (calls : List Call) (round_index : ℕ) (s : LoopState) (r : Round) (t : Turn S)
      → paired [] s.messages ≡ true
      → ((rs : List CallResult) → r ≡ completed rs → length rs ≡ length calls)
      → PairedEnd (settle_round env calls round_index s (r, t)).0
  unfolding settle_round
  settle_round-PairedEnd calls round_index s (interrupted i) t h all_answered = h
  settle_round-PairedEnd calls round_index s (completed rs) t h all_answered =
      next_reply-PairedEnd _ (with_results calls rs s) _
        (append_tool_messages-paired s.messages calls rs h (all_answered rs refl))

  run_round-PairedEnd :
      (calls : List Call) (round_index : ℕ) (s : LoopState) (t : Turn S)
      → paired [] s.messages ≡ true
      → PairedEnd (run_round env turn_id session_id round_index calls s t).0
  unfolding run_round
  run_round-PairedEnd [] round_index s t h = h
  run_round-PairedEnd (call ∷ calls) round_index s t h =
      let (r, after) = execute_tool_calls env turn_id session_id (call ∷ calls) t in
      settle_round-PairedEnd (call ∷ calls) round_index s r after h
        (λ rs e. completed-length env turn_id session_id (call ∷ calls) t rs tools e)

  next_round-paired :
      (k : LoopState → Turn S → LoopEnd × Turn S) (r : RoundEnd) (t : Turn S)
      → PairedEnd r
      → ((s : LoopState) (after : Turn S)
          → paired [] s.messages ≡ true
          → paired [] (messages_of (k s after).0) ≡ true)
      → paired [] (messages_of (next_round k (r, t)).0) ≡ true
  unfolding next_round
  next_round-paired k (ended e) t h go = h
  next_round-paired k (again s) t h go = go s t h

  continue_llm_loop-paired :
      (rounds round_index : ℕ) (s : LoopState) (t : Turn S)
      → paired [] s.messages ≡ true
      → paired [] (messages_of (continue_llm_loop env turn_id session_id rounds round_index s t).0)
        ≡ true
  unfolding continue_llm_loop
  continue_llm_loop-paired zero round_index s t h = h
  continue_llm_loop-paired (suc rounds) round_index s t h =
      let calls = calls_of s.response.tool_calls in
      let (r, after) = run_round env turn_id session_id round_index calls s t in
      next_round-paired (continue_llm_loop env turn_id session_id rounds (round_index + 1)) r after
        (run_round-PairedEnd calls round_index s t h)
        (continue_llm_loop-paired rounds (round_index + 1))

  first_reply-paired :
      (messages : List Message) (reply : LlmReply) (t : Turn S)
      → paired [] messages ≡ true
      → paired [] (messages_of (first_reply env turn_id session_id messages (reply, t)).0) ≡ true
  unfolding first_reply
  first_reply-paired messages (rate_limited policy retry_after) t h = h
  first_reply-paired messages (circuit_open e) t h = h
  first_reply-paired messages (failed e) t h = h
  first_reply-paired messages (replied response) t h =
      continue_llm_loop-paired 4 0 (start_state response messages) t h

  -- The messages that a turn sends and keeps are in the order that the model's interface asks for:
  -- each call of the assistant is answered by one message with the call's id, in the order of the
  -- calls, before anything else is said. So they are where an approval stops the turn.
  pub run_llm-paired :
      (messages : List Message) (t : Turn S)
      → paired [] messages ≡ true
      → paired [] (messages_of (run_llm env turn_id session_id messages t).0) ≡ true
  unfolding run_llm
  run_llm-paired messages t h =
      let (reply, asked) = ask_llm env messages t in
      elim (Bool-cases env.llm_configured) [
        | inl there ↦ rw there (first_reply-paired messages reply asked h)
        | inr absent ↦ rw absent refl
      ]
