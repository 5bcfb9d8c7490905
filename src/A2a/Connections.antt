-- ===== src/A2a/Connections.antt =====
-- The connections of `A2AService`, of backend/domain/a2a.py.
use soul_claw.Base.{
  ℕ, String, Bool, true, false, not, ◌&&◌, ◌||◌, List, [], ◌∷◌, Option, none, some, Exec, ok,
  value_error, string, num, flag, Fields, end, field, info, warning, str_eq, is_empty, or_else,
  if◌then◌else◌, ◌==◌, keep, take, sort_by, length, max, min, strip, rstrip_by, pure, raise, ◌>>◌,
}
use Prim.Native.Char.{code}
use soul_claw.A2a.State.{
  Connection, A2aDb, A2aEnv, emit_to, audit_to, find_connection, put_connection,
}
use soul_claw.A2a.Cards.{skills_from_card, capabilities_from_card, text_le}

-- What `upsert_connection` is called with; an argument of None is the empty value, which the code does
-- not tell apart.
pub record ConnectionRequest : Type 0 where
  pub name : String
  pub kind : String
  pub endpoint : String
  pub rpc_url : String
  pub agent_card : Fields
  pub config : Fields
  pub enabled : Bool
  pub status : String
  pub capabilities : List String
  pub skills : List Fields

abbrev pub or_card : Fields → Fields → Fields
or_card end other = other
or_card (field k v rest) other = field k v rest

abbrev pub or_list {ℓ} : {A : Type ℓ} → List A → List A → List A
or_list [] other = other
or_list (x ∷ xs) other = x ∷ xs

-- the card, the last error and the time of the discovery that a row has, if there is one
abbrev pub card_of : Option Connection → Fields
card_of none = end
card_of (some c) = c.agent_card

abbrev pub error_of : Option Connection → String
error_of none = ""
error_of (some c) = c.last_error

abbrev pub discovered_of : Option Connection → Option ℕ
discovered_of none = none
discovered_of (some c) = c.last_discovered_at

-- the columns that `upsert_connection` leaves in the row
unfoldable pub upserted : A2aEnv → String → ConnectionRequest → Option Connection → Connection
unfolding rstrip_by capabilities_from_card skills_from_card
upserted env name r old =
    let card = or_card r.agent_card (card_of old) in
    record {
      name = name;
      kind = r.kind;
      endpoint = rstrip_by (λ c. code c == 47) r.endpoint;
      rpc_url = r.rpc_url;
      agent_card = card;
      config = r.config;
      enabled = r.enabled;
      status = if r.enabled then or_else r.status "pending" else "disabled";
      capabilities = or_list r.capabilities (capabilities_from_card env.lower card);
      skills = or_list r.skills (skills_from_card card);
      last_error = if r.enabled then error_of old else "";
      last_discovered_at = discovered_of old;
    }

unfoldable pub save_connection : Connection → Exec A2aDb (Unit {0})
save_connection c db = (ok tt, record db { connections = put_connection c db.connections })

unfoldable pub upsert_row : A2aEnv → String → ConnectionRequest → Exec A2aDb Connection
unfolding save_connection upserted emit_to audit_to pure find_connection
upsert_row env name r db =
    (do
      let c = upserted env name r (find_connection name db.connections)
      save_connection c
      emit_to "a2a.connection.upserted" info (
          field "name" (string name)
            (field "kind" (string r.kind) (field "enabled" (flag r.enabled) end)))
      audit_to "a2a.connection.upsert" "a2a_connection" name
          (field "kind" (string r.kind) (field "enabled" (flag r.enabled) end))
      pure c)
      db

-- `upsert_connection`
unfoldable pub upsert_connection : A2aEnv → ConnectionRequest → Exec A2aDb Connection
unfolding upsert_row raise strip
upsert_connection env r =
    if is_empty (strip r.name)
    then raise (value_error "A2A connection name is required")
    else if not (str_eq r.kind "a2a")
    then raise (value_error "unsupported A2A connection kind")
    else if is_empty r.endpoint && is_empty r.rpc_url
    then raise (value_error "A2A connection requires endpoint or rpc_url")
    else upsert_row env (strip r.name) r

-- `update_discovery`, of a row that the session holds
unfoldable pub update_discovery :
    A2aEnv → Connection → Fields → String → String → String → Exec A2aDb Connection
unfolding capabilities_from_card skills_from_card save_connection emit_to pure
update_discovery env connection card rpc_url status error = do
  let c = record connection {
    agent_card = card;
    rpc_url = or_else rpc_url connection.rpc_url;
    capabilities = capabilities_from_card env.lower card;
    skills = skills_from_card card;
    status = status;
    last_error = error;
    last_discovered_at = some env.now;
  }
  save_connection c
  emit_to "a2a.connection.discovered" (if is_empty error then info else warning) (
      field "name" (string connection.name) (
        field "status" (string status) (field "skills" (num (length (skills_from_card card))) end)))
  pure c

abbrev pub is_kind : String → Connection → Bool
is_kind kind c = is_empty kind || str_eq c.kind kind

abbrev pub is_enabled : Option Bool → Connection → Bool
is_enabled none c = true
is_enabled (some true) c = c.enabled
is_enabled (some false) c = not c.enabled

-- `list_connections`
unfoldable pub list_connections : Option Bool → String → ℕ → A2aDb → List Connection
unfolding sort_by
list_connections enabled kind limit db = take (max 1 (min limit 500)) (
    sort_by (λ c d. text_le c.name d.name)
      (keep (λ c. is_enabled enabled c && is_kind kind c) db.connections))
