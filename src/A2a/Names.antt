-- ===== src/A2a/Names.antt =====
-- What `upsert_connection` leaves, and when it refuses.
use Prim.Native.Char.{code}
use soul_claw.Base.{
  String, Bool, true, false, not, ◌&&◌, ◌≡◌, refl, some, ok, err, arith, str_eq, eq_iff, is_empty,
  strip, if◌then◌else◌, List, [], ◌∷◌, PyError, value_error, raise, pure, Exec, Option, none, end,
  rstrip_by, ◌==◌, eq_refl, ◌∙◌, Json, Fields, field,
}
use soul_claw.A2a.State.{
  Connection, A2aDb, A2aEnv, find_connection, put_connection, emit_to, audit_to,
}
use soul_claw.A2a.Cards.{capabilities_from_card, skills_from_card}
use soul_claw.A2a.Connections.{
  ConnectionRequest, upserted, upsert_row, upsert_connection, save_connection,
}

find-put_connection :
    (k : String) (c : Connection) (cs : List Connection)
    → find_connection k (put_connection c cs)
      ≡ (if str_eq c.name k then some c else find_connection k cs)
unfolding find_connection put_connection
find-put_connection k c [] = refl
find-put_connection k c (d ∷ ds) =
    ground
      (arith, eq_iff d.name c.name, eq_iff d.name k, eq_iff c.name k, find-put_connection k c ds)

-- what the checks want: a name, the kind, and an endpoint or a URL
abbrev pub is_valid : ConnectionRequest → Bool
is_valid r =
    not (is_empty (strip r.name))
    && (str_eq r.kind "a2a" && not (is_empty r.endpoint && is_empty r.rpc_url))

-- the error of the first check that fails
abbrev pub refusal : ConnectionRequest → PyError
refusal r = value_error (
    if is_empty (strip r.name)
    then "A2A connection name is required"
    else if not (str_eq r.kind "a2a")
    then "unsupported A2A connection kind"
    else "A2A connection requires endpoint or rpc_url")

three_checks :
    (a b c : Bool) (m₁ m₂ m₃ : String) (act : Exec A2aDb Connection) (db : A2aDb)
    → (if a
          then raise (value_error m₁)
          else if not b
          then raise (value_error m₂)
          else if c
          then raise (value_error m₃)
          else act)
        db
      ≡ (if not a && (b && not c)
          then act db
          else (err (value_error (if a then m₁ else if not b then m₂ else m₃)), db))
unfolding raise
three_checks true b c m₁ m₂ m₃ act db = refl
three_checks false false c m₁ m₂ m₃ act db = refl
three_checks false true true m₁ m₂ m₃ act db = refl
three_checks false true false m₁ m₂ m₃ act db = refl

-- What an accepted request makes of the row of its name, from the row that was there, if there was one.
pub record Updated (env : A2aEnv) (r : ConnectionRequest) (old : Option Connection) (c : Connection)
    : Type 0 where
  pub addresses :
      (c.name ≡ strip r.name)
      × (c.kind ≡ r.kind)
      × (c.endpoint ≡ rstrip_by (λ x. code x == 47) r.endpoint)
      × (c.rpc_url ≡ r.rpc_url)
      × (c.config ≡ r.config)
  pub switched_off :
      r.enabled ≡ false → (c.enabled ≡ false) × (c.status ≡ "disabled") × (c.last_error ≡ "")
  pub switched_on :
      r.enabled ≡ true
      → (c.enabled ≡ true)
        × (is_empty r.status ≡ true → c.status ≡ "pending")
        × (is_empty r.status ≡ false → c.status ≡ r.status)
  pub kept :
      (o : Connection)
      → old ≡ some o
      → (c.last_discovered_at ≡ o.last_discovered_at)
        × (r.agent_card ≡ end → c.agent_card ≡ o.agent_card)
        × (r.enabled ≡ true → c.last_error ≡ o.last_error)
  pub added : old ≡ none → (c.last_discovered_at ≡ none) × (c.last_error ≡ "")
  pub card :
      (k : String) (v : Json) (rest : Fields)
      → r.agent_card ≡ field k v rest
      → c.agent_card ≡ field k v rest
  pub capabilities :
      (r.capabilities ≡ [] → c.capabilities ≡ capabilities_from_card env.lower c.agent_card)
      × ((x : String) (xs : List String) → r.capabilities ≡ x ∷ xs → c.capabilities ≡ x ∷ xs)
  pub skills :
      (r.skills ≡ [] → c.skills ≡ skills_from_card c.agent_card)
      × ((x : Fields) (xs : List Fields) → r.skills ≡ x ∷ xs → c.skills ≡ x ∷ xs)

upserted-Updated :
    (env : A2aEnv) (r : ConnectionRequest) (old : Option Connection)
    → Updated env r old (upserted env (strip r.name) r old)
unfolding upserted
upserted-Updated env r old = record {
  addresses = (refl, refl, refl, refl, refl);
  switched_off = λ off. rw off (refl, refl, refl);
  switched_on = λ on. rw on (refl, λ e. rw e refl, λ e. rw e refl);
  kept = λ o there. rw there (refl, λ e. rw e refl, λ on. rw on refl);
  added = λ absent. rw absent (refl, ground arith);
  card = λ k v rest given. rw given refl;
  capabilities = (λ absent. rw absent refl, λ x xs given. rw given refl);
  skills = (λ absent. rw absent refl, λ x xs given. rw given refl);
}

-- A request without a name, of another kind, or without both addresses is refused and changes no
-- connection. Any other returns the row that its stripped name then has, with the request's columns: a
-- connection that is switched off is disabled and without an error, one that is switched on has the
-- request's status, or `pending`, and the error that it had; a card that was there stays where the
-- request has none, and the time of the discovery stays; capabilities and skills that the request does
-- not list are those of the card. No other row is changed.
pub upsert_connection_lem :
    (env : A2aEnv) (r : ConnectionRequest) (db : A2aDb)
    → let (answer, after) = upsert_connection env r db in
      (is_valid r ≡ false → (answer ≡ err (refusal r)) × (after.connections ≡ db.connections))
      × (is_valid r ≡ true
          → (c : Connection) × (answer ≡ ok c)
            × (find_connection (strip r.name) after.connections ≡ some c)
            × Updated env r (find_connection (strip r.name) db.connections) c
            × ((k : String)
                → str_eq (strip r.name) k ≡ false
                → find_connection k after.connections ≡ find_connection k db.connections))
unfolding upsert_connection upsert_row save_connection emit_to audit_to pure
upsert_connection_lem env r db =
    let old = find_connection (strip r.name) db.connections in
    let c = upserted env (strip r.name) r old in
    let name : c.name ≡ strip r.name = unfold upserted in refl in
    let cases =
      three_checks (is_empty (strip r.name)) (str_eq r.kind "a2a")
        (is_empty r.endpoint && is_empty r.rpc_url) "A2A connection name is required"
        "unsupported A2A connection kind" "A2A connection requires endpoint or rpc_url"
        (upsert_row env (strip r.name) r) db in
    rw cases (
      λ refused. rw refused (refl, refl),
      λ valid. rw valid (
        c,
        refl,
        find-put_connection (strip r.name) c db.connections
            ∙ rw (name, eq_refl (strip r.name)) refl,
        upserted-Updated env r old,
        λ k other. find-put_connection k c db.connections ∙ rw (name, other) refl,
      ),
    )
