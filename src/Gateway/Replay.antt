-- ===== src/Gateway/Replay.antt =====
-- Which inbound messages of a public webhook are let in, and how long a nonce is refused again.
use soul_claw.Base.{
  ℕ, ◌+◌, ◌<◌, ◌-◌, ◌≤◌, String, Bool, true, false, ◌≡◌, refl, ap, inl, inr, List, [], ◌∷◌, ◌++◌,
  arith, Result, ok, err, arr, Fields, field_get, field_get-put, truthy, text_or_empty, as_items,
  or_else, is_empty, str_eq, drop, length, length-append, drop-append, max, Bool-cases,
}
use soul_claw.Gateway.State.{
  GatewayConnection, InboundGatewayMessage, GatewayEnv, ParsedFloat, invalid, not_a_number,
  infinite, at_second, before_epoch,
}
use soul_claw.Gateway.Verify.{
  dicts_of, items_of, nonce_cache, has_nonce, last_of, outside_window, nonce_entry,
  verify_replay_window, record_nonce, check_signature, verify_signature, then_check, signed_text,
  after_prefix, strip,
}

dicts_of-items_of : (ds : List Fields) → dicts_of (items_of ds) ≡ ds
unfolding dicts_of items_of
dicts_of-items_of [] = refl
dicts_of-items_of (d ∷ ds) = ap (λ (l : List Fields). d ∷ l) (dicts_of-items_of ds)

-- The cache holds the nonce, with at most so many entries behind it.
pub record Holds (nonce timestamp : String) (count : ℕ) (cache : List Fields) : Type 0 where
  pub before : List Fields
  pub behind : List Fields
  pub parts : cache ≡ before ++ (nonce_entry nonce timestamp ∷ behind)
  pub few : length behind ≤ count

last_of-Holds :
    (nonce timestamp : String) (count size : ℕ) (before behind : List Fields)
    → length behind ≤ count
    → length behind < size
    → Holds nonce timestamp count (last_of size (before ++ (nonce_entry nonce timestamp ∷ behind)))
last_of-Holds nonce timestamp count size before behind few room =
    let rest = nonce_entry nonce timestamp ∷ behind in
    let n = length (before ++ rest) - size in
    record {
      before = drop n before;
      behind = behind;
      parts = drop-append n before rest (omega (arith, length-append before rest, room));
      few = few;
    }

module _ {S : Type 0} {W : Type 0} (env : GatewayEnv S W) where
  recorded_cache :
      (g : GatewayConnection) (timestamp nonce : String)
      → nonce_cache (record_nonce env g timestamp nonce).config
        ≡ last_of
            (max 1 env.webhook_nonce_cache_size)
            (nonce_cache g.config ++ (nonce_entry nonce timestamp ∷ []))
  unfolding record_nonce nonce_cache
  recorded_cache g timestamp nonce =
      let kept = last_of (max 1 env.webhook_nonce_cache_size) (
        dicts_of (as_items (field_get "nonce_cache" g.config))
        ++ (nonce_entry nonce timestamp ∷ [])) in
      rw (field_get-put "nonce_cache" "nonce_cache" (arr (items_of kept)) g.config)
        (dicts_of-items_of kept)

  pub record_nonce-Holds :
      (g : GatewayConnection) (timestamp nonce : String)
      → Holds nonce timestamp 0 (nonce_cache (record_nonce env g timestamp nonce).config)
  record_nonce-Holds g timestamp nonce = rw (recorded_cache g timestamp nonce) (
      last_of-Holds nonce timestamp 0 (max 1 env.webhook_nonce_cache_size) (nonce_cache g.config) []
        (omega arith) (omega arith))

abbrev pub is_public : InboundGatewayMessage → Bool
is_public m = truthy (field_get "public_webhook" m.metadata)

abbrev pub timestamp_of : InboundGatewayMessage → String
timestamp_of m = text_or_empty (field_get "timestamp" m.metadata)

abbrev pub nonce_of : InboundGatewayMessage → String
nonce_of m = text_or_empty (field_get "nonce" m.metadata)

abbrev pub signature_of : InboundGatewayMessage → String
signature_of m =
    or_else (text_or_empty (field_get "signature" m.metadata))
      (text_or_empty (field_get "x_soulclaw_signature" m.metadata))

abbrev pub is_err {ℓ} : {A : Type ℓ} → Result A → Bool
is_err (ok a) = false
is_err (err e) = true

-- The timestamp is a number inside the window around this time, or not-a-number.
abbrev pub IsTimely : ℕ → ℕ → ParsedFloat → Type 0
IsTimely now skew (at_second t) = (now ≤ t + skew) × (t ≤ now + skew)
IsTimely now skew not_a_number = Unit
IsTimely now skew _ = ⊥

inside-IsTimely :
    (now skew : ℕ) (p : ParsedFloat) → outside_window now skew p ≡ false → IsTimely now skew p
inside-IsTimely now skew invalid h = ground arith
inside-IsTimely now skew not_a_number h = tt
inside-IsTimely now skew infinite h = ground arith
inside-IsTimely now skew (at_second t) h = ground arith
inside-IsTimely now skew (before_epoch t) h = ground arith

abbrev pub secret_of : GatewayConnection → String
secret_of g = text_or_empty (field_get "secret" g.config)

-- The gateway behind a message: a refused one changes nothing, as its session is rolled back.
unfoldable pub received : Result GatewayConnection → GatewayConnection → GatewayConnection
received (ok after) g = after
received (err e) g = g

then_check_ok :
    (w : Result (Unit {0})) (c : Result GatewayConnection) (after : GatewayConnection)
    → then_check w c ≡ ok after
    → (w ≡ ok tt) × (c ≡ ok after)
then_check_ok (ok _) c after h = (refl, h)
then_check_ok (err e) c after h = cc

module _ {S : Type 0} {W : Type 0} (env : GatewayEnv S W) where
  window_passed :
      (g : GatewayConnection) (timestamp nonce : String)
      → verify_replay_window env g timestamp nonce ≡ ok tt
      → (is_empty timestamp ≡ false)
        × (is_empty nonce ≡ false)
        × (outside_window env.now env.webhook_max_skew_seconds (env.parse_float timestamp) ≡ false)
        × (has_nonce nonce (nonce_cache g.config) ≡ false)
  unfolding verify_replay_window
  window_passed g timestamp nonce h = ground arith

  signature_passed :
      (g after : GatewayConnection) (secret signature timestamp nonce text : String)
      → check_signature env g true secret signature timestamp nonce text ≡ ok after
      → (str_eq
            (after_prefix signature (strip "sha256=" signature))
            (env.hmac_hex secret (signed_text timestamp nonce text))
          ≡ true)
        × (after ≡ record_nonce env g timestamp nonce)
  unfolding check_signature
  signature_passed g after secret signature timestamp nonce text h = ground arith

  pub verified_public :
      (g : GatewayConnection) (m : InboundGatewayMessage) (after : GatewayConnection)
      → is_public m ≡ true
      → verify_signature env g m ≡ ok after
      → (is_empty (secret_of g) ≡ false)
        × (str_eq
              (after_prefix (signature_of m) (strip "sha256=" (signature_of m)))
              (env.hmac_hex (secret_of g) (signed_text (timestamp_of m) (nonce_of m) m.text))
            ≡ true)
        × ((is_empty (timestamp_of m) ≡ false) × (is_empty (nonce_of m) ≡ false))
        × IsTimely env.now env.webhook_max_skew_seconds (env.parse_float (timestamp_of m))
        × (has_nonce (nonce_of m) (nonce_cache g.config) ≡ false)
        × (after ≡ record_nonce env g (timestamp_of m) (nonce_of m))
  unfolding verify_signature
  verified_public g m after public h = elim (Bool-cases (is_empty (secret_of g))) [
    | inl unset ↦ (let h' = rw (public, unset) at h in cc)
    | inr there ↦
        (let h' = rw (public, there) at h in
          let (window, signed) = then_check_ok _ _ after h' in
          let (dated, named, inside, new) = window_passed g (timestamp_of m) (nonce_of m) window in
          let (same, recorded) =
            signature_passed g after (secret_of g) (signature_of m) (timestamp_of m) (nonce_of m)
              m.text signed in
          (
            there,
            same,
            (dated, named),
            inside-IsTimely env.now env.webhook_max_skew_seconds (env.parse_float (timestamp_of m))
                inside,
            new,
            recorded,
          ))
  ]

  -- A message that is not of a public webhook leaves the gateway.
  pub verified_private :
      (g : GatewayConnection) (m : InboundGatewayMessage) (after : GatewayConnection)
      → is_public m ≡ false
      → verify_signature env g m ≡ ok after
      → after ≡ g
  unfolding verify_signature check_signature
  verified_private g m after private h = ground arith

module _ {S : Type 0} {W : Type 0} (env : GatewayEnv S W) where
  -- Messages that come at these times, one after the other
  unfoldable pub receive_all :
      List (ℕ × InboundGatewayMessage) → GatewayConnection → GatewayConnection
  unfolding received
  receive_all [] g = g
  receive_all ((now, m) ∷ ms) g =
      receive_all ms (received (verify_signature (record env { now = now }) g m) g)
