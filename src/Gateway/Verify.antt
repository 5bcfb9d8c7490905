-- ===== src/Gateway/Verify.antt =====
-- The checks of `GatewayRuntimeManager` on an inbound message: `_verify_signature`,
-- `_verify_replay_window` and `_record_nonce` of backend/runtime/gateway.py.
use Prim.Native.Char.{code}
use soul_claw.Base.{
  ℕ, ◌-◌, String, Bool, true, false, not, ◌&&◌, ◌||◌, List, [], ◌∷◌, ◌++◌, Option, none, some,
  Result, ok, err, key_error, runtime_error, Json, string, arr, obj, Items, nil, cons, Fields, end,
  field, field_get, field_put, truthy, text_or_empty, as_items, or_else, is_empty, str_eq, f_string,
  any, drop, length, max, ltb, ◌==◌, if◌then◌else◌,
}
use soul_claw.Gateway.State.{
  GatewayConnection, InboundGatewayMessage, ParsedFloat, invalid, not_a_number, infinite, at_second,
  before_epoch, GatewayEnv, find_gateway,
}

-- the dictionaries of a list
unfoldable pub dicts_of : Items → List Fields
dicts_of nil = []
dicts_of (cons (obj d) rest) = d ∷ dicts_of rest
dicts_of (cons x rest) = dicts_of rest

unfoldable pub items_of : List Fields → Items
items_of [] = nil
items_of (d ∷ ds) = cons (obj d) (items_of ds)

-- `item.get("nonce") == nonce`
abbrev pub is_text : String → Option Json → Bool
is_text s (some (string t)) = str_eq t s
is_text s _ = false

unfoldable pub nonce_cache : Fields → List Fields
unfolding dicts_of
nonce_cache config = dicts_of (as_items (field_get "nonce_cache" config))

unfoldable pub has_nonce : String → List Fields → Bool
has_nonce nonce cache = any (λ d. is_text nonce (field_get "nonce" d)) cache

-- `cache[-n:]`, for a positive n
abbrev pub last_of {ℓ} : {A : Type ℓ} → ℕ → List A → List A
last_of n xs = drop (length xs - n) xs

-- `abs(time.time() - ts) > max_skew`; nothing is greater than not-a-number. A text that is no float has
-- been refused before.
abbrev pub outside_window : ℕ → ℕ → ParsedFloat → Bool
outside_window now skew invalid = true
outside_window now skew not_a_number = false
outside_window now skew infinite = true
outside_window now skew (at_second t) = ltb skew (now - t) || ltb skew (t - now)
outside_window now skew (before_epoch t) = true

abbrev pub is_invalid : ParsedFloat → Bool
is_invalid invalid = true
is_invalid _ = false

abbrev pub nonce_entry : String → String → Fields
nonce_entry nonce timestamp =
    field "nonce" (string nonce) (field "timestamp" (string timestamp) end)

-- the text after a prefix that it starts with
unfoldable pub strip : String → String → Option String
strip String.[] s = some s
strip (String.◌∷◌ c p) String.[] = none
strip (String.◌∷◌ c p) (String.◌∷◌ d s) =
    let rest = strip p s in if code c == code d then rest else none

-- `removeprefix`
abbrev pub after_prefix : String → Option String → String
after_prefix s none = s
after_prefix s (some rest) = rest

abbrev pub signed_text : String → String → String → String
signed_text timestamp nonce text =
    if not (is_empty timestamp) || not (is_empty nonce)
    then f_string (timestamp ∷ "." ∷ nonce ∷ "." ∷ text ∷ [])
    else text

abbrev pub then_check : Result (Unit {0}) → Result GatewayConnection → Result GatewayConnection
then_check (ok _) r = r
then_check (err e) r = err e

-- `_require_gateway`
unfoldable pub require_gateway : String → List GatewayConnection → Result GatewayConnection
unfolding find_gateway
require_gateway name gs = elim (find_gateway name gs) [
  | none ↦ err (key_error (f_string ("gateway not found: " ∷ name ∷ [])))
  | some g ↦
      if not g.enabled
      then err (runtime_error (f_string ("gateway disabled: " ∷ name ∷ [])))
      else ok g
]

module _ {S : Type 0} {W : Type 0} where
  -- `_verify_replay_window`
  unfoldable pub verify_replay_window :
      GatewayEnv S W → GatewayConnection → String → String → Result (Unit {0})
  unfolding has_nonce nonce_cache
  verify_replay_window env g timestamp nonce =
      if is_empty timestamp || is_empty nonce
      then err (runtime_error "public gateway webhook requires timestamp and nonce")
      else if is_invalid (env.parse_float timestamp)
      then err (runtime_error "invalid gateway timestamp")
      else if outside_window env.now env.webhook_max_skew_seconds (env.parse_float timestamp)
      then err (runtime_error "gateway timestamp outside allowed window")
      else if has_nonce nonce (nonce_cache g.config)
      then err (runtime_error "replayed gateway nonce")
      else ok tt

  -- `_record_nonce`
  unfoldable pub record_nonce :
      GatewayEnv S W → GatewayConnection → String → String → GatewayConnection
  unfolding items_of nonce_cache
  record_nonce env g timestamp nonce = record g {
    config =
        field_put "nonce_cache"
          (arr (
            items_of (
              last_of (max 1 env.webhook_nonce_cache_size)
                (nonce_cache g.config ++ (nonce_entry nonce timestamp ∷ [])))))
          g.config;
  }

  -- the comparison of the signatures, and the nonce of a public webhook
  unfoldable pub check_signature :
      GatewayEnv S W
      → GatewayConnection
      → Bool
      → String
      → String
      → String
      → String
      → String
      → Result GatewayConnection
  unfolding record_nonce strip
  check_signature env g public_webhook secret signature timestamp nonce text =
      if not (
        str_eq (after_prefix signature (strip "sha256=" signature))
          (env.hmac_hex secret (signed_text timestamp nonce text)))
      then err (runtime_error "invalid gateway signature")
      else ok (if public_webhook then record_nonce env g timestamp nonce else g)

  -- `_verify_signature`, as the gateway with its nonce recorded
  unfoldable pub verify_signature :
      GatewayEnv S W → GatewayConnection → InboundGatewayMessage → Result GatewayConnection
  unfolding verify_replay_window check_signature
  verify_signature env g message =
      let secret = text_or_empty (field_get "secret" g.config) in
      let public_webhook = truthy (field_get "public_webhook" message.metadata) in
      let timestamp = text_or_empty (field_get "timestamp" message.metadata) in
      let nonce = text_or_empty (field_get "nonce" message.metadata) in
      let signature =
        or_else (text_or_empty (field_get "signature" message.metadata))
          (text_or_empty (field_get "x_soulclaw_signature" message.metadata)) in
      if public_webhook && is_empty secret
      then err (runtime_error "public gateway webhook requires a configured secret")
      else if is_empty secret
      then ok g
      else then_check (if public_webhook then verify_replay_window env g timestamp nonce else ok tt)
          (check_signature env g public_webhook secret signature timestamp nonce message.text)
