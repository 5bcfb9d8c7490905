-- ===== src/Gateway/Tests.antt =====
-- The theorems on gateways at a concrete webhook.
use soul_claw.Base.{
  ◌≤◌, some, err, ℕ, ◌+◌, ◌≤◌, true, false, ◌≡◌, refl, [], ◌∷◌, none, err, other_error, flag,
  string, end, field, f_string, field_get, truthy,
}
use soul_claw.Resilience.Policy.{transport_error}
use soul_claw.Resilience.Call.{failed}
use soul_claw.Gateway.State.{
  GatewayConnection, InboundGatewayMessage, OutboundGatewayMessage, at_second, GatewayEnv, Store,
  find_gateway,
}
use soul_claw.Gateway.Verify.{require_gateway, verify_signature, record_nonce}
use soul_claw.Gateway.Manager.{send, handle_inbound, inbound_from}
use soul_claw.Gateway.Failures.{inbound_failure_rolls_back, send-calls}

abbrev gateway : GatewayConnection
gateway = record {
  name = "hook";
  kind = "webhook";
  status = "online";
  endpoint = "http://example.org";
  config = field "secret" (string "s3") end;
  enabled = true;
  last_inbound_at = none;
  last_outbound_at = none;
  last_error = "";
  inbound_count = 0;
  outbound_count = 0;
  failure_count = 0;
}

-- The HMAC of the example shows the secret and the text; the agent and the address both fail.
abbrev env : GatewayEnv ℕ ℕ
env = record {
  now = 1000;
  webhook_max_skew_seconds = 300;
  webhook_nonce_cache_size = 200;
  parse_float = λ s. at_second 990;
  hmac_hex = λ secret text. f_string (secret ∷ ":" ∷ text ∷ []);
  run_turn = λ text session_id s. (err (other_error "no model"), s + 1);
  post = λ url payload key. record {
    now = λ t. t;
    sleep = λ d t. t + d;
    uniform = λ t j. record { below = false; distance = 0 };
    isoformat = λ n. "";
    fn = λ t. (failed (transport_error "down"), t + 1);
  };
}

abbrev store : Store ℕ ℕ
store = record {
  gateways = gateway ∷ [];
  rest = 7;
  sink = record { attached = true; runtime = []; audits = [] };
  manager = record {
    states = [];
    sink = record { attached = true; runtime = []; audits = [] };
    observed = [];
    calls = 0;
    world = 0;
  };
}

abbrev message : InboundGatewayMessage
message = record {
  gateway_name = "hook";
  external_user_id = "u";
  text = "hello";
  channel_id = "";
  metadata = field "public_webhook" (flag true) (
      field "timestamp" (string "990")
        (field "nonce" (string "n1") (field "signature" (string "sha256=s3:990.n1.hello") end)));
}

abbrev reply : OutboundGatewayMessage
reply = record { gateway_name = "hook"; target_id = ""; text = "hi"; metadata = end }

abbrev other_message : InboundGatewayMessage
other_message = record message {
  metadata = field "public_webhook" (flag true) (
      field "timestamp" (string "991")
        (field "nonce" (string "n2") (field "signature" (string "sha256=s3:991.n2.hello") end)));
}

inbound_failure_rolls_back_example :
    let inside = inbound_from env message (require_gateway "hook" store.gateways) store in
    let (answer, after) = handle_inbound env message store in
    ((row : GatewayConnection) × (find_gateway "hook" inside.1.gateways ≡ some row)
      × (row.failure_count ≡ 1)
      × (row.last_error ≡ "no model")
      × (row.status ≡ "failed"))
    × (answer ≡ err (other_error "no model"))
    × (after.gateways ≡ store.gateways)
    × (after.rest ≡ 7)
unfolding find_gateway verify_signature field_get truthy
inbound_failure_rolls_back_example =
    inbound_failure_rolls_back env message gateway (record_nonce env gateway "990" "n1") store
      (other_error "no model") refl refl refl refl

send-calls_example : (send env reply store).1.manager.calls ≤ 0 + 1
unfolding field_get
send-calls_example = send-calls env reply store
