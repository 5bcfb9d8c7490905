-- ===== src/Agent/Pending.antt =====
-- What a round of calls has done when an approval interrupts it.
use soul_claw.Base.{
  ℕ, ◌+◌, String, ◌≡◌, refl, ap, subst, sym, List, [], ◌∷◌, ◌++◌, arith, length, length-append,
  true,
}
use soul_claw.Agent.State.{Call, CallResult, Interrupt, AgentEnv, Turn}
use soul_claw.Agent.Calls.{
  Round, completed, interrupted, call_once, execute_from, execute_tool_calls,
}
use soul_claw.Agent.Rounds.{go_on-holds, call_once-interrupt}

-- The calls before the pending one each have a result, and the pending call is at its index.
pub record Stopped (calls : List Call) (i : Interrupt) : Type 0 where
  pub before : List Call
  pub after : List Call
  pub split : calls ≡ before ++ (i.pending_tool_call ∷ after)
  pub index : i.pending_index ≡ length before
  pub done : length i.completed_results ≡ length before

module _ {S : Type 0} (env : AgentEnv S) (turn_id session_id : String) where
  -- A finished round has a result for each call; an interrupted one stopped at its pending call.
  Ends : List Call → ℕ → List CallResult → Round → Type 0
  Ends calls index results (completed rs) = length rs ≡ length results + length calls
  Ends calls index results (interrupted i) =
      (before : List Call) × (after : List Call) × (calls ≡ before ++ (i.pending_tool_call ∷ after))
      × (i.pending_index ≡ index + length before)
      × (length i.completed_results ≡ length results + length before)

  -- The rest of a round ends so, and with one result more the round does.
  Ends-cons :
      (call : Call) (calls : List Call) (index : ℕ) (results : List CallResult)
      (result : CallResult) (r : Round)
      → Ends calls (index + 1) (results ++ (result ∷ [])) r
      → Ends (call ∷ calls) index results r
  unfolding Ends
  Ends-cons call calls index results result (completed rs) h =
      omega (arith, h, length-append results (result ∷ []))
  Ends-cons call calls index results result (interrupted i) (before, after, split, at, done) = (
    call ∷ before,
    after,
    ap (λ (l : List Call). call ∷ l) split,
    omega (arith, at),
    omega (arith, done, length-append results (result ∷ [])),
  )

  execute_from-Ends :
      (index : ℕ) (results : List CallResult) (calls : List Call) (t : Turn S)
      → Ends calls index results (execute_from env turn_id session_id index results calls t).0
  unfolding execute_from Ends
  execute_from-Ends index results [] t = omega arith
  execute_from-Ends index results (call ∷ calls) t =
      go_on-holds (λ (r, after). Ends (call ∷ calls) index results r)
        (λ result after.
          execute_from env turn_id session_id (index + 1) (results ++ (result ∷ [])) calls after)
        (call_once env turn_id session_id index results call t)
        (λ result after e.
          Ends-cons call calls index results result _
            (execute_from-Ends (index + 1) (results ++ (result ∷ [])) calls after))
        (λ i after e.
          (let (_, pending, at, done) =
              call_once-interrupt env turn_id session_id index results call t i after e in
            (
              [],
              calls,
              ap (λ (c : Call). c ∷ calls) (sym pending),
              omega (arith, at),
              rw done (omega arith),
            )))

  with_tools :
      (calls : List Call) (t : Turn S)
      → env.has_tools ≡ true
      → execute_from env turn_id session_id 0 [] calls t
        ≡ execute_tool_calls env turn_id session_id calls t
  unfolding execute_tool_calls
  with_tools calls t tools = rw tools refl

  execute_tool_calls-Ends :
      (calls : List Call) (t : Turn S)
      → env.has_tools ≡ true
      → Ends calls 0 [] (execute_tool_calls env turn_id session_id calls t).0
  execute_tool_calls-Ends calls t tools =
      subst (λ r. Ends calls 0 [] (r.0)) {y = execute_tool_calls env turn_id session_id calls t}
        (with_tools calls t tools) (execute_from-Ends 0 [] calls t)

  -- A finished round of the executor has one result for each call.
  pub completed-length :
      (calls : List Call) (t : Turn S) (rs : List CallResult)
      → env.has_tools ≡ true
      → (execute_tool_calls env turn_id session_id calls t).0 ≡ completed rs
      → length rs ≡ length calls
  unfolding Ends
  completed-length calls t rs tools e = omega (
    arith,
    subst (λ r. Ends calls 0 [] r) {y = completed rs} e (execute_tool_calls-Ends calls t tools),
  )

  -- An approval interrupts a round at the call that it is for: each call before it has a result, and
  -- the pending call is the one at the index that the interrupt says.
  pub interrupted-Stopped :
      (calls : List Call) (t : Turn S) (i : Interrupt)
      → env.has_tools ≡ true
      → (execute_tool_calls env turn_id session_id calls t).0 ≡ interrupted i
      → Stopped calls i
  unfolding Ends
  interrupted-Stopped calls t i tools e =
      let (before, after, split, at, done) =
        subst (λ r. Ends calls 0 [] r) {y = interrupted i} e
          (execute_tool_calls-Ends calls t tools) in
      record {
        before = before;
        after = after;
        split = split;
        index = omega (arith, at);
        done = omega (arith, done);
      }
