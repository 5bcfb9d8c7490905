-- ===== src/Conversation/Context.antt =====
-- What a context holds once a message is recorded.
use soul_claw.Base.{
  ℕ, zero, suc, ◌+◌, ◌-◌, ◌≤◌, ◌<◌, String, Bool, false, ◌≡◌, refl, ◌∙◌, List, [], ◌∷◌, ◌++◌,
  Option, arith, min, max, take, length, length-append, str_eq, eq_refl, Bool-cases, inl, inr,
  if◌then◌else◌, keep-append, append-nil, All, sort_by, insert_by,
}
use mathlib.Core.List.{reverse-cons}
use soul_claw.Conversation.Service.{
  SessionMessage, ConversationDb, ConversationEnv, NewMessage, in_session, latest, limit_or,
  comes_before, new_message, add_message, record_as, recent_context, emit_to,
}

abbrev pub context_size : ConversationEnv → Option ℕ → ℕ
context_size env limit = max 1 (min (limit_or env.recent_limit limit) 50)

-- What a session's messages become when a message is recorded
pub in_session-record_as :
    (env : ConversationEnv) (role session_id : String) (r : NewMessage) (db : ConversationDb)
    → in_session session_id (record_as env role r db).1.messages ≡ (
        if str_eq r.session_id session_id
        then in_session session_id db.messages ++ (new_message env role r db.supply ∷ [])
        else in_session session_id db.messages)
unfolding record_as add_message emit_to in_session
in_session-record_as env role session_id r db =
    keep-append (λ (m : SessionMessage). str_eq m.session_id session_id) db.messages
      (new_message env role r db.supply ∷ [])
    ∙ elim (Bool-cases (str_eq r.session_id session_id)) [
      | inl e ↦ rw e refl
      | inr e ↦ rw e (append-nil _)
    ]

-- One that comes before all others is the first of the sorted list.
sort_by-append {ℓ} :
    {A : Type ℓ} (before : A → A → Bool) (xs : List A) (m : A)
    → All (λ x. before x m ≡ false) xs
    → sort_by before (xs ++ (m ∷ [])) ≡ m ∷ sort_by before xs
unfolding sort_by insert_by
sort_by-append before [] m h = refl
sort_by-append before (x ∷ xs) m h = rw (sort_by-append before xs m h.1) (rw h.0 refl)

take-cons {ℓ} :
    {A : Type ℓ} (n : ℕ) (x : A) (xs : List A) → 1 ≤ n → take n (x ∷ xs) ≡ x ∷ take (n - 1) xs
take-cons zero x xs h = ground arith
take-cons (suc n) x xs h = let less : suc n - 1 ≡ n = omega arith in rw less refl

earlier-comes_before :
    (env : ConversationEnv) (m : SessionMessage) (xs : List SessionMessage)
    → All (λ x. x.created_at < m.created_at) xs
    → All (λ x. comes_before env x m ≡ false) xs
earlier-comes_before env m [] h = tt
earlier-comes_before env m (x ∷ xs) h =
    let first : x.created_at < m.created_at = h.0 in
    (ground arith, earlier-comes_before env m xs h.1)

latest-append :
    (env : ConversationEnv) (limit : ℕ) (before : List SessionMessage) (m : SessionMessage)
    → 1 ≤ limit
    → All (λ x. x.created_at < m.created_at) before
    → latest env limit (before ++ (m ∷ [])) ≡ latest env (limit - 1) before ++ (m ∷ [])
unfolding latest
latest-append env limit before m room earlier =
    let sorted = sort_by (comes_before env) before in
    rw (sort_by-append (comes_before env) before m (earlier-comes_before env m before earlier))
      (rw (take-cons limit m sorted room) (reverse-cons m (take (limit - 1) sorted)))

-- The context of another session is as before, whatever the times.
recent_context-other :
    (env : ConversationEnv) (role session_id : String) (r : NewMessage) (limit : Option ℕ)
    (db : ConversationDb)
    → str_eq r.session_id session_id ≡ false
    → recent_context env session_id limit (record_as env role r db).1
      ≡ recent_context env session_id limit db
unfolding recent_context
recent_context-other env role session_id r limit db other =
    let kept : in_session session_id (record_as env role r db).1.messages
        ≡ in_session session_id db.messages =
      in_session-record_as env role session_id r db ∙ rw other refl in
    let same : (record_as env role r db).1.summaries ≡ db.summaries =
      unfold record_as add_message emit_to in refl in
    rw (kept, same) refl

-- After a message is recorded that is later than every message of its session, whatever its role, the
-- context of the session ends with it, behind the newest others that the limit leaves room for, and
-- counts one more. The context of every other session is as before.
pub record_as-recent_context :
    (env : ConversationEnv) (role : String) (r : NewMessage) (limit : Option ℕ)
    (db : ConversationDb)
    → All (λ m. m.created_at < env.now) (in_session r.session_id db.messages)
    → let before = in_session r.session_id db.messages in
      let after = (record_as env role r db).1 in
      (recent_context env r.session_id limit after ≡ (record {
        summary = (recent_context env r.session_id limit db).summary;
        messages =
            latest env (context_size env limit - 1) before
            ++ (new_message env role r db.supply ∷ []);
        total_messages = length before + 1;
      }))
      × ((session_id : String)
          → str_eq r.session_id session_id ≡ false
          → recent_context env session_id limit after ≡ recent_context env session_id limit db)
record_as-recent_context env role r limit db earlier =
    let before = in_session r.session_id db.messages in
    let m = new_message env role r db.supply in
    let same : (record_as env role r db).1.summaries ≡ db.summaries =
      unfold record_as add_message emit_to in refl in
    let grown : in_session r.session_id (record_as env role r db).1.messages ≡ before ++ (m ∷ []) =
      in_session-record_as env role r.session_id r db ∙ rw (eq_refl r.session_id) refl in
    (
      unfold recent_context in
          rw grown (
            rw
              (
                latest-append env (context_size env limit) before m (omega arith) earlier,
                length-append before (m ∷ []),
                same,
              )
              refl),
      λ session_id other. recent_context-other env role session_id r limit db other,
    )
