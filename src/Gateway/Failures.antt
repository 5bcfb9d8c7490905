-- ===== src/Gateway/Failures.antt =====
-- What a failure of a gateway leaves behind, and how often a message is posted.
use soul_claw.Base.{
  ℕ, ◌+◌, ◌≤◌, String, true, ◌≡◌, refl, ap, ◌∙◌, arith, List, [], ◌∷◌, some, eq_iff, str_exc,
  Bool-cases, inl, inr, Result, ok, err, PyError, is_empty, or_else, if◌then◌else◌,
}
use soul_claw.Resilience.Attempts.{call-calls}
use soul_claw.Gateway.State.{
  GatewayConnection, InboundGatewayMessage, OutboundGatewayMessage, GatewayEnv, Store, end_scope,
  find_gateway, put_gateway, session_id_of, tell,
}
use soul_claw.Gateway.Verify.{require_gateway, verify_signature, record_nonce}
use soul_claw.Gateway.Replay.{is_public, verified_public, verified_private}
use soul_claw.Gateway.Manager.{
  Delivery, key_of, payload_of, http_policy, non_idempotent_policy, post_with, deliver, settle_send,
  send_from, send, handle_inbound, accept, settle_turn, inbound_from, verified,
}

name-find_gateway :
    (name : String) (gs : List GatewayConnection) (g : GatewayConnection)
    → find_gateway name gs ≡ some g
    → g.name ≡ name
unfolding find_gateway
name-find_gateway name [] g h = ground arith
name-find_gateway name (x ∷ xs) g h =
    ground (arith, eq_iff x.name name, name-find_gateway name xs g)

find-put_gateway :
    (name : String) (gs : List GatewayConnection) (g row : GatewayConnection)
    → find_gateway name gs ≡ some g
    → row.name ≡ name
    → find_gateway name (put_gateway row gs) ≡ some row
unfolding find_gateway put_gateway
find-put_gateway name [] g row h e = ground arith
find-put_gateway name (x ∷ xs) g row h e = ground (
  arith,
  eq_iff x.name name,
  eq_iff x.name row.name,
  eq_iff row.name name,
  λ (found : find_gateway name xs ≡ some g). find-put_gateway name xs g row found e,
)

module _ {S : Type 0} {W : Type 0} where
  -- The tables after a raise are those before it.
  abbrev RolledBack : {A : Type 0} → Store S W → Result A × Store S W → Type 0
  RolledBack before (r, s) =
      (e : PyError) → r ≡ err e → (s.gateways ≡ before.gateways) × (s.rest ≡ before.rest)

  end_scope-RolledBack :
      {A : Type 0} (before : Store S W) (r : Result A) (s : Store S W)
      → RolledBack before (end_scope before (r, s))
  unfolding end_scope
  end_scope-RolledBack before (ok a) s e h = cc
  end_scope-RolledBack before (err x) s e h = (refl, refl)

  end_scope-err :
      {A : Type 0} (before : Store S W) (x : Result A × Store S W) (e : PyError)
      → x.0 ≡ err e
      → ((end_scope before x).0 ≡ err e)
        × ((end_scope before x).1.gateways ≡ before.gateways)
        × ((end_scope before x).1.rest ≡ before.rest)
  unfolding end_scope
  end_scope-err before (ok a, s) e h = cc
  end_scope-err before (err f, s) e h = (h, refl, refl)

  end_scope-manager :
      {A : Type 0} (before : Store S W) (r : Result A) (s : Store S W)
      → (end_scope before (r, s)).1.manager ≡ s.manager
  unfolding end_scope
  end_scope-manager before (ok a) s = refl
  end_scope-manager before (err e) s = refl

  settle_send-manager :
      (env : GatewayEnv S W) (g : GatewayConnection) (m : OutboundGatewayMessage)
      (r : Result Delivery) (s : Store S W)
      → (settle_send env g m (r, s)).1.manager ≡ s.manager
  unfolding settle_send
  settle_send-manager env g m (ok d) s = refl
  settle_send-manager env g m (err e) s = refl

module _ {S : Type 0} {W : Type 0} (env : GatewayEnv S W) where
  verified-row :
      (g row : GatewayConnection) (m : InboundGatewayMessage)
      → verify_signature env g m ≡ ok row
      → (row.name ≡ g.name) × (row.failure_count ≡ g.failure_count)
  verified-row g row m h = elim (Bool-cases (is_public m)) [
    | inl public ↦ rw (verified_public env g m row public h).5 (unfold record_nonce in (refl, refl))
    | inr private ↦ rw (verified_private env g m row private h) (refl, refl)
  ]

  require_found :
      (name : String) (gs : List GatewayConnection) (g : GatewayConnection)
      → find_gateway name gs ≡ some g
      → g.enabled ≡ true
      → require_gateway name gs ≡ ok g
  unfolding require_gateway
  require_found name gs g found enabled = ground arith

  -- The agent's failure of an accepted message, in the session
  accept_fails :
      (g row : GatewayConnection) (m : InboundGatewayMessage) (s : Store S W) (e : PyError)
      → find_gateway m.gateway_name s.gateways ≡ some g
      → row.name ≡ m.gateway_name
      → (env.run_turn m.text (session_id_of row.name m.channel_id m.external_user_id) s.rest).0
        ≡ err e
      → ((accept env row m s).0 ≡ err e)
        × (find_gateway m.gateway_name (accept env row m s).1.gateways
            ≡ some (record row {
              last_inbound_at = some env.now;
              inbound_count = row.inbound_count + 1;
              failure_count = row.failure_count + 1;
              last_error = str_exc e;
              status = "failed";
            }))
  unfolding accept settle_turn tell
  accept_fails g row m s e found named raises = rw raises (
    refl,
    find-put_gateway m.gateway_name _ _ _
        (find-put_gateway m.gateway_name s.gateways g _ found named) named,
  )

  -- An enabled gateway's message that was let in and on which the agent fails: within the session the
  -- gateway's row has one more failure, the exception's text and the status `failed`, the call raises the
  -- agent's exception, and behind the session all tables are as they were. So the failure is never seen.
  pub inbound_failure_rolls_back :
      (m : InboundGatewayMessage) (g row : GatewayConnection) (s : Store S W) (e : PyError)
      → find_gateway m.gateway_name s.gateways ≡ some g
      → g.enabled ≡ true
      → verify_signature env g m ≡ ok row
      → (env.run_turn m.text
          (session_id_of m.gateway_name m.channel_id m.external_user_id)
          s.rest).0
        ≡ err e
      → let inside = inbound_from env m (require_gateway m.gateway_name s.gateways) s in
        let (answer, after) = handle_inbound env m s in
        ((failed : GatewayConnection) × (find_gateway m.gateway_name inside.1.gateways
            ≡ some failed)
          × (failed.failure_count ≡ g.failure_count + 1)
          × (failed.last_error ≡ str_exc e)
          × (failed.status ≡ "failed"))
        × (answer ≡ err e)
        × (after.gateways ≡ s.gateways)
        × (after.rest ≡ s.rest)
  unfolding handle_inbound inbound_from verified
  inbound_failure_rolls_back m g row s e found enabled let_in raises =
      let (same_name, same_count) = verified-row g row m let_in in
      let own : g.name ≡ m.gateway_name = name-find_gateway m.gateway_name s.gateways g found in
      let named : row.name ≡ m.gateway_name = same_name ∙ own in
      let (answer, there) = accept_fails g row m s e found named (
        ap
          (λ (n : String).
            (env.run_turn m.text (session_id_of n m.channel_id m.external_user_id) s.rest).0)
          named
        ∙ raises) in
      rw (require_found m.gateway_name s.gateways g found enabled) (
        rw let_in (
          let (raised, tables, rest) = end_scope-err s (verified env m (ok row) s) e answer in
          ((_, there, ap (λ n. n + 1) same_count, refl, refl), raised, tables, rest)))

  -- The same holds of an outbound message that raises.
  pub send_failure_rolls_back :
      (m : OutboundGatewayMessage) (s : Store S W) (e : PyError)
      → (send env m s).0 ≡ err e
      → ((send env m s).1.gateways ≡ s.gateways) × ((send env m s).1.rest ≡ s.rest)
  unfolding send
  send_failure_rolls_back m s e = end_scope-RolledBack s _ _ e

  -- the policy's number of attempts
  abbrev pub posts_allowed : OutboundGatewayMessage → ℕ
  posts_allowed m = if is_empty (key_of m) then 1 else 3

  post_with-calls :
      (g : GatewayConnection) (m : OutboundGatewayMessage) (s : Store S W)
      → (post_with env g m (key_of m) s).1.manager.calls ≤ s.manager.calls + posts_allowed m
  unfolding post_with
  post_with-calls g m s =
      let service = env.post (or_else m.target_id g.endpoint) (payload_of g m) (key_of m) in
      ground (
        arith,
        call-calls service non_idempotent_policy s.manager,
        call-calls service http_policy s.manager,
      )

  deliver-calls :
      (g : GatewayConnection) (m : OutboundGatewayMessage) (s : Store S W)
      → (deliver env g m s).1.manager.calls ≤ s.manager.calls + posts_allowed m
  unfolding deliver
  deliver-calls g m s = ground (arith, post_with-calls g m s)

  send_from-calls :
      (m : OutboundGatewayMessage) (r : Result GatewayConnection) (s : Store S W)
      → (send_from env m r s).1.manager.calls ≤ s.manager.calls + posts_allowed m
  unfolding send_from
  send_from-calls m (err e) s = ground arith
  send_from-calls m (ok g) s =
      let (r, after) = deliver env g m s in
      ground (arith, settle_send-manager env g m r after, deliver-calls g m s)

  -- A message without an idempotency key and message id is posted at most once, any other at most
  -- three times.
  pub send-calls :
      (m : OutboundGatewayMessage) (s : Store S W)
      → (send env m s).1.manager.calls ≤ s.manager.calls + (if is_empty (key_of m) then 1 else 3)
  unfolding send
  send-calls m s =
      let r = require_gateway m.gateway_name s.gateways in
      let (sent, after) = send_from env m r s in
      ground (arith, end_scope-manager s sent after, send_from-calls m r s)
