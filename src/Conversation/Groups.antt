-- ===== src/Conversation/Groups.antt =====
-- The groups of `list_sessions` count the messages of their sessions.
use soul_claw.Base.{
  ℕ, ◌+◌, ◌≤◌, String, false, ◌≡◌, refl, List, [], ◌∷◌, ◌++◌, arith, min, max, length,
  length-append, length-take, append-nil, str_eq, eq_iff, eq_refl, Bool-cases, inl, inr,
  if◌then◌else◌, All, All-take, keep-append,
}
use mathlib.Core.List.{append_assoc}
use soul_claw.Conversation.Service.{
  SessionMessage, ConversationDb, in_session, SessionRow, count_of, other_rows, group_from,
  list_sessions,
}

-- The rows' counts are those of the messages seen so far, and a session without a row has none.
record Counts (seen : List SessionMessage) (rows : List SessionRow) : Type 0 where
  listed : All (λ r. r.message_count ≡ length (in_session r.session_id seen)) rows
  counted : (session_id : String) → count_of session_id rows ≡ length (in_session session_id seen)

in_session-append :
    (session_id : String) (seen : List SessionMessage) (m : SessionMessage)
    → length (in_session session_id (seen ++ (m ∷ [])))
      ≡ (if str_eq m.session_id session_id then 1 else 0) + length (in_session session_id seen)
unfolding in_session
in_session-append session_id seen m =
    rw (keep-append (λ (x : SessionMessage). str_eq x.session_id session_id) seen (m ∷ []))
      (elim (Bool-cases (str_eq m.session_id session_id)) [
        | inl e ↦ rw e (omega (arith, length-append (in_session session_id seen) (m ∷ [])))
        | inr e ↦
            rw e (omega (arith, length-append {A = SessionMessage} (in_session session_id seen) []))
      ])

count_of-other_rows :
    (session_id other : String) (rows : List SessionRow)
    → str_eq other session_id ≡ false
    → count_of session_id (other_rows other rows) ≡ count_of session_id rows
unfolding count_of other_rows
count_of-other_rows session_id other [] h = refl
count_of-other_rows session_id other (r ∷ rs) h = ground (
  arith,
  eq_iff r.session_id other,
  eq_iff r.session_id session_id,
  eq_iff other session_id,
  count_of-other_rows session_id other rs h,
)

other_rows-All :
    (m : SessionMessage) (seen : List SessionMessage) (rows : List SessionRow)
    → All (λ r. r.message_count ≡ length (in_session r.session_id seen)) rows
    → All
        (λ r. r.message_count ≡ length (in_session r.session_id (seen ++ (m ∷ []))))
        (other_rows m.session_id rows)
unfolding other_rows
other_rows-All m seen [] h = tt
other_rows-All m seen (r ∷ rs) h = elim (Bool-cases (str_eq r.session_id m.session_id)) [
  | inl e ↦ rw e (other_rows-All m seen rs h.1)
  | inr e ↦ rw e (
    ground (
      arith,
      h.0,
      in_session-append r.session_id seen m,
      eq_iff r.session_id m.session_id,
      eq_iff m.session_id r.session_id,
    ),
    other_rows-All m seen rs h.1,
  )
]

grown-Counts :
    (m : SessionMessage) (seen : List SessionMessage) (rows : List SessionRow)
    → Counts seen rows
    → Counts (seen ++ (m ∷ [])) (
        record {
          session_id = m.session_id;
          last_message_at = m.created_at;
          message_count = count_of m.session_id rows + 1;
        }
        ∷ other_rows m.session_id rows)
unfolding count_of
grown-Counts m seen rows h = record {
  listed = (
    ground (
      arith,
      h.counted m.session_id,
      in_session-append m.session_id seen m,
      eq_refl m.session_id,
    ),
    other_rows-All m seen rows h.listed,
  );
  counted = λ session_id. ground (
    arith,
    h.counted session_id,
    h.counted m.session_id,
    in_session-append session_id seen m,
    eq_iff m.session_id session_id,
    count_of-other_rows session_id m.session_id rows,
  );
}

group_from-Counts :
    (ms seen : List SessionMessage) (rows : List SessionRow)
    → Counts seen rows
    → Counts (seen ++ ms) (group_from rows ms)
unfolding group_from
group_from-Counts [] seen rows h = rw (append-nil seen) h
group_from-Counts (m ∷ ms) seen rows h =
    rw (← append_assoc seen (m ∷ []) ms)
      (group_from-Counts ms (seen ++ (m ∷ [])) _ (grown-Counts m seen rows h))

-- Every row that `list_sessions` returns counts exactly the messages of its session, and there are at
-- most 500 rows.
pub list_sessions_lem :
    (limit : ℕ) (db : ConversationDb)
    → All
        (λ r. r.message_count ≡ length (in_session r.session_id db.messages))
        (list_sessions limit db)
      × (length (list_sessions limit db) ≤ 500)
unfolding list_sessions count_of in_session
list_sessions_lem limit db =
    let h = group_from-Counts db.messages [] [] (record { listed = tt; counted = λ s. refl }) in
    (
      All-take (λ (r : SessionRow). r.message_count ≡ length (in_session r.session_id db.messages))
          _ _ h.listed,
      omega (arith, length-take (max 1 (min limit 500)) (group_from [] db.messages)),
    )
