-- ===== src/Gateway/Manager.antt =====
-- `handle_inbound`, `send` and `_deliver` of backend/runtime/gateway.py.
use soul_claw.Base.{
  ℕ, ◌+◌, String, not, ◌||◌, [], ◌∷◌, some, Result, ok, err, Exec, PyError, value_error,
  other_error, str_exc, Fields, string, obj, end, field, field_get, text_or_empty, or_else,
  is_empty, str_eq, starts_with, f_string, info, warning, if◌then◌else◌,
}
use soul_claw.Resilience.Policy.{ResiliencePolicy, failure_text}
use soul_claw.Resilience.Call.{Attempt, returned, failed, Manager, call}
use soul_claw.Gateway.State.{
  GatewayConnection, InboundGatewayMessage, OutboundGatewayMessage, TurnAnswer, GatewayEnv, Store,
  session_id_of, save_gateway, tell, end_scope,
}
use soul_claw.Gateway.Verify.{verify_signature, require_gateway}

-- What `send` returns: the local delivery, or the status code of a post
pub data Delivery : Type 0 where
  local_delivery : String → String → Delivery
  http_post : ℕ → String → Delivery

-- The dictionary of `handle_inbound`, without the context
pub record Handled : Type 0 where
  pub gateway : String
  pub session_id : String
  pub turn_id : String
  pub answer : String

-- `self.http_policy`; times in milliseconds
abbrev pub http_policy : ResiliencePolicy
http_policy = record {
  name = "gateway.outbound_http";
  max_attempts = 3;
  base_delay = 300;
  max_delay = 5000;
  jitter_percent = 20;
  failure_threshold = 5;
  recovery = 45000;
  retry_status_codes = 408 ∷ 409 ∷ 425 ∷ 429 ∷ 500 ∷ 502 ∷ 503 ∷ 504 ∷ [];
}

-- the policy of a post without an idempotency key, with the default delays
abbrev pub non_idempotent_policy : ResiliencePolicy
non_idempotent_policy = record http_policy {
  name = "gateway.outbound_http.non_idempotent";
  max_attempts = 1;
  base_delay = 250;
  max_delay = 4000;
}

abbrev pub key_of : OutboundGatewayMessage → String
key_of message =
    or_else (text_or_empty (field_get "idempotency_key" message.metadata))
      (text_or_empty (field_get "message_id" message.metadata))

abbrev pub payload_of : GatewayConnection → OutboundGatewayMessage → Fields
payload_of g message = field "text" (string message.text) (
    field "metadata" (obj message.metadata)
      (field "gateway" (string g.name) (field "kind" (string g.kind) end)))

abbrev pub failed_row : GatewayConnection → PyError → GatewayConnection
failed_row g e = record g {
  failure_count = g.failure_count + 1;
  last_error = str_exc e;
  status = "failed";
}

module _ {S : Type 0} {W : Type 0} where
  abbrev pub answer_of : String → Store S W → Attempt ℕ × Manager W → Result Delivery × Store S W
  answer_of key s (returned code, m) = (ok (http_post code key), record s { manager = m })
  answer_of key s (failed e, m) = (err (other_error (failure_text e)), record s { manager = m })

  unfoldable pub post_with :
      GatewayEnv S W
      → GatewayConnection
      → OutboundGatewayMessage
      → String
      → Exec (Store S W) Delivery
  unfolding call
  post_with env g message key s = answer_of key s (
      call (env.post (or_else message.target_id g.endpoint) (payload_of g message) key)
        (if is_empty key then non_idempotent_policy else http_policy) s.manager)

  -- `_deliver`
  unfoldable pub deliver :
      GatewayEnv S W → GatewayConnection → OutboundGatewayMessage → Exec (Store S W) Delivery
  unfolding post_with
  deliver env g message s =
      if str_eq g.kind "local"
      then (ok (local_delivery message.target_id message.text), s)
      else if str_eq g.kind "webhook" || str_eq g.kind "slack"
      then (if not (
            starts_with (or_else message.target_id g.endpoint) "http://"
            || starts_with (or_else message.target_id g.endpoint) "https://")
          then (err (value_error "webhook/slack gateway requires an http target_id or endpoint"), s)
          else post_with env g message (key_of message) s)
      else (
        err (
            other_error (
              f_string (
                "gateway kind '" ∷ g.kind ∷ "' is configured but no outbound adapter is active"
                ∷ []))),
        s,
      )

  -- what follows `_deliver`
  unfoldable pub settle_send :
      GatewayEnv S W
      → GatewayConnection
      → OutboundGatewayMessage
      → Result Delivery × Store S W
      → Result Delivery × Store S W
  settle_send env g message (ok d, s) = (
    ok d,
    tell "gateway.outbound.succeeded" info
        (field "gateway" (string g.name) (field "target_id" (string message.target_id) end))
        (save_gateway
          (record g {
            last_outbound_at = some env.now;
            outbound_count = g.outbound_count + 1;
            last_error = "";
            status = "online";
          })
          s),
  )
  settle_send env g message (err e, s) = (
    err e,
    tell "gateway.outbound.failed" warning
        (field "gateway" (string g.name)
          (field "target_id" (string message.target_id) (field "error" (string (str_exc e)) end)))
        (save_gateway (failed_row g e) s),
  )

  unfoldable pub send_from :
      GatewayEnv S W → OutboundGatewayMessage → Result GatewayConnection → Exec (Store S W) Delivery
  unfolding deliver settle_send
  send_from env message (err e) s = (err e, s)
  send_from env message (ok g) s = settle_send env g message (deliver env g message s)

  -- `send`
  unfoldable pub send : GatewayEnv S W → OutboundGatewayMessage → Exec (Store S W) Delivery
  unfolding send_from require_gateway end_scope
  send env message s =
      end_scope s (send_from env message (require_gateway message.gateway_name s.gateways) s)

  -- what follows `run_turn`
  unfoldable pub settle_turn :
      GatewayConnection → String → Result TurnAnswer × Store S W → Result Handled × Store S W
  settle_turn g session_id (ok a, s) = (
    ok (record {
      gateway = g.name;
      session_id = session_id;
      turn_id = a.turn_id;
      answer = a.answer;
    }),
    s,
  )
  settle_turn g session_id (err e, s) = (
    err e,
    tell "gateway.inbound.failed" warning
        (field "gateway" (string g.name) (field "error" (string (str_exc e)) end))
        (save_gateway (failed_row g e) s),
  )

  abbrev pub run_agent :
      GatewayEnv S W → String → String → Store S W → Result TurnAnswer × Store S W
  run_agent env text session_id s =
      let (r, rest) = env.run_turn text session_id s.rest in (r, record s { rest = rest })

  -- a verified message
  unfoldable pub accept :
      GatewayEnv S W → GatewayConnection → InboundGatewayMessage → Exec (Store S W) Handled
  unfolding settle_turn session_id_of
  accept env g message s =
      let session_id = session_id_of g.name message.channel_id message.external_user_id in
      let online = record g {
        last_inbound_at = some env.now;
        inbound_count = g.inbound_count + 1;
        status = "online";
      } in
      settle_turn online session_id (
        run_agent env message.text session_id (
          tell "gateway.inbound" info
            (field "gateway" (string g.name) (
              field "kind" (string g.kind) (
                field "external_user_id" (string message.external_user_id)
                  (field "channel_id" (string message.channel_id) end))))
            (save_gateway online s)))

  unfoldable pub verified :
      GatewayEnv S W → InboundGatewayMessage → Result GatewayConnection → Exec (Store S W) Handled
  unfolding accept
  verified env message (err e) s = (err e, s)
  verified env message (ok g) s = accept env g message s

  unfoldable pub inbound_from :
      GatewayEnv S W → InboundGatewayMessage → Result GatewayConnection → Exec (Store S W) Handled
  unfolding verified verify_signature
  inbound_from env message (err e) s = (err e, s)
  inbound_from env message (ok g) s = verified env message (verify_signature env g message) s

  -- `handle_inbound`
  unfoldable pub handle_inbound : GatewayEnv S W → InboundGatewayMessage → Exec (Store S W) Handled
  unfolding inbound_from require_gateway end_scope
  handle_inbound env message s =
      end_scope s (inbound_from env message (require_gateway message.gateway_name s.gateways) s)
