-- ===== src/Gateway/State.antt =====
-- The rows, messages and the store of backend/runtime/gateway.py, and `session_scope` of
-- backend/infra/db.py.
use Prim.Native.Char.{code}
use Prim.Native.String.{◌++◌ as concat}
use soul_claw.Base.{
  ℕ, String, Bool, List, [], ◌∷◌, Option, none, some, Result, ok, err, Exec, Fields, Sink, Severity,
  emit, str_eq, ◌==◌, if◌then◌else◌, f_string, or_else,
}
use soul_claw.Resilience.Call.{Outside, Manager}

-- `GatewayConnection` of backend/infra/models.py, the columns that the runtime reads or writes
pub record GatewayConnection : Type 0 where
  pub name : String
  pub kind : String
  pub status : String
  pub endpoint : String
  pub config : Fields
  pub enabled : Bool
  pub last_inbound_at : Option ℕ
  pub last_outbound_at : Option ℕ
  pub last_error : String
  pub inbound_count : ℕ
  pub outbound_count : ℕ
  pub failure_count : ℕ

pub record InboundGatewayMessage : Type 0 where
  pub gateway_name : String
  pub external_user_id : String
  pub text : String
  pub channel_id : String
  pub metadata : Fields

pub record OutboundGatewayMessage : Type 0 where
  pub gateway_name : String
  pub target_id : String
  pub text : String
  pub metadata : Fields

-- What `float` makes of a timestamp: no number, not-a-number, an infinity, or whole seconds after or
-- before the epoch.
pub data ParsedFloat : Type 0 where
  invalid not_a_number infinite : ParsedFloat
  at_second before_epoch : ℕ → ParsedFloat

-- The answer of the agent to a message
pub record TurnAnswer : Type 0 where
  pub turn_id : String
  pub answer : String

-- The settings, the clock, `float`, the HMAC of a text under a secret in hexadecimal, `run_turn` of the
-- agent on the other tables, and the post of a payload to an address with an idempotency key, which
-- answers a status code.
pub record GatewayEnv (S : Type 0) (W : Type 0) : Type 0 where
  pub now : ℕ
  pub webhook_max_skew_seconds : ℕ
  pub webhook_nonce_cache_size : ℕ
  pub parse_float : String → ParsedFloat
  pub hmac_hex : String → String → String
  pub run_turn : String → String → Exec S TurnAnswer
  pub post : String → Fields → String → Outside W ℕ

-- The table of gateways and the other tables, which a session rolls back; the bus and the circuits,
-- which it does not.
pub record Store (S : Type 0) (W : Type 0) : Type 0 where
  pub gateways : List GatewayConnection
  pub rest : S
  pub sink : Sink
  pub manager : Manager W

unfoldable pub find_gateway : String → List GatewayConnection → Option GatewayConnection
find_gateway name [] = none
find_gateway name (g ∷ gs) = if str_eq g.name name then some g else find_gateway name gs

unfoldable pub put_gateway : GatewayConnection → List GatewayConnection → List GatewayConnection
put_gateway g [] = []
put_gateway g (h ∷ hs) = if str_eq h.name g.name then g ∷ hs else h ∷ put_gateway g hs

-- `part.replace(":", "_")`
unfoldable pub replace_colons : String → String
replace_colons String.[] = ""
replace_colons (String.◌∷◌ c s) =
    let rest = replace_colons s in if code c == b':' then concat "_" rest else String.◌∷◌ c rest

-- `_session_id`
unfoldable pub session_id_of : String → String → String → String
unfolding replace_colons
session_id_of gateway_name channel_id external_user_id = f_string (
    "gateway:"
    ∷ replace_colons gateway_name
    ∷ ":"
    ∷ replace_colons (or_else channel_id "default")
    ∷ ":"
    ∷ replace_colons (or_else external_user_id "anonymous")
    ∷ [])

module _ {S : Type 0} {W : Type 0} where
  abbrev pub save_gateway : GatewayConnection → Store S W → Store S W
  save_gateway g s = record s { gateways = put_gateway g s.gateways }

  abbrev pub tell : String → Severity → Fields → Store S W → Store S W
  tell name severity payload s = record s { sink = emit name severity payload s.sink }

  -- the end of `session_scope`: commit, or roll the tables back and raise
  unfoldable pub end_scope : {A : Type 0} → Store S W → Result A × Store S W → Result A × Store S W
  end_scope before (ok a, s) = (ok a, s)
  end_scope before (err e, s) = (err e, record s { gateways = before.gateways; rest = before.rest })
