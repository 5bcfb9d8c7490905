-- ===== src/A2a/Stream.antt =====
-- The numbers of a task's events, and what a client that polls them reads.
use soul_claw.Base.{
  ℕ, zero, suc, ◌+◌, ◌-◌, String, ◌≡◌, refl, sym, ap, ◌∙◌, List, [], ◌∷◌, ◌++◌, Fields, arith, max,
  min, length, take, drop, keep, keep-append, append-nil, str_eq, eq_iff, Bool-cases, inl, inr, ltb,
  leb, sort_by, insert_by,
}
use soul_claw.A2a.State.{Task, Event, A2aDb, A2aEnv, emit_to, audit_to}
use soul_claw.A2a.Tasks.{
  events_of, last_sequence, add_event, list_events, TaskRequest, create_task, add_task, Mark,
  mark_task, save_task, marked, ArtifactRequest, add_artifact, insert_artifact,
}

-- numbered one by one, from the number after n
abbrev pub Numbered : ℕ → List Event → Type 0
Numbered n [] = Unit
Numbered n (e ∷ es) = (e.sequence ≡ n + 1) × Numbered (n + 1) es

-- The events of each task are numbered 1, 2, 3 and so on, in the order of their insertion.
abbrev pub IsNumbered : A2aDb → Type 0
IsNumbered db = (task_id : String) → Numbered 0 (events_of task_id db.events)

Numbered-append :
    (n : ℕ) (es : List Event) (e : Event)
    → Numbered n es
    → e.sequence ≡ n + length es + 1
    → Numbered n (es ++ (e ∷ []))
Numbered-append n [] e h last = (omega (arith, last), tt)
Numbered-append n (x ∷ xs) e h last = (h.0, Numbered-append (n + 1) xs e h.1 (omega (arith, last)))

last-Numbered : (n : ℕ) (es : List Event) → Numbered n es → max n (last_sequence es) ≡ n + length es
unfolding last_sequence
last-Numbered n [] h = omega arith
last-Numbered n (e ∷ es) h = omega (arith, h.0, last-Numbered (n + 1) es h.1)

zero_right : (n : ℕ) → n + 0 ≡ n
zero_right n = omega arith

shift : (n j : ℕ) → n + suc j ≡ n + 1 + j
shift n j = omega arith

Numbered-drop : (n j : ℕ) (es : List Event) → Numbered n es → Numbered (n + j) (drop j es)
Numbered-drop n zero es h = rw (zero_right n) h
Numbered-drop n (suc j) [] h = tt
Numbered-drop n (suc j) (e ∷ es) h = rw (shift n j) (Numbered-drop (n + 1) j es h.1)

drop_none : (n : ℕ) → drop n [] ≡ ◌++◌ {A = Event} [] []
drop_none zero = refl
drop_none (suc n) = refl

keep-Numbered :
    (n k : ℕ) (es : List Event) → Numbered n es → keep (λ e. ltb k e.sequence) es ≡ drop (k - n) es
keep-Numbered n k [] h = sym (drop_none (k - n))
keep-Numbered n k (e ∷ es) h =
    let rest = keep-Numbered (n + 1) k es h.1 in
    elim (Bool-cases (ltb k e.sequence)) [
      | inl e_after ↦
          let here : k - n ≡ 0 = ground (arith, e_after, h.0) in
          let there : k - (n + 1) ≡ 0 = omega (arith, here) in
          rw (e_after, here) (ap (λ l. e ∷ l) (rest ∙ rw there refl))
      | inr e_before ↦
          let step : k - n ≡ suc (k - (n + 1)) = ground (arith, e_before, h.0) in
          rw (e_before, step) rest
    ]

sort-Numbered :
    (n : ℕ) (es : List Event) → Numbered n es → sort_by (λ e f. leb e.sequence f.sequence) es ≡ es
unfolding sort_by insert_by
sort-Numbered n [] h = refl
sort-Numbered n (e ∷ []) h = refl
sort-Numbered n (e ∷ (f ∷ fs)) h = rw (sort-Numbered (n + 1) (f ∷ fs) h.1) (ground arith)

-- Where the events are numbered, polling from a number gives the events behind that many, up to the
-- limit, which is at least 1 and at most 1000: a client that goes on from the last number that it read
-- misses none and reads none twice.
pub list_events_lem :
    (task_id : String) (after limit : ℕ) (db : A2aDb)
    → IsNumbered db
    → list_events task_id after limit db
      ≡ take (max 1 (min limit 1000)) (drop after (events_of task_id db.events))
unfolding list_events
list_events_lem task_id after limit db h =
    let es = events_of task_id db.events in
    let all_of : after - 0 ≡ after = omega arith in
    let later = keep-Numbered 0 after es (h task_id) ∙ rw all_of refl in
    ap (take (max 1 (min limit 1000))) (
      ap (sort_by (λ (e f : Event). leb e.sequence f.sequence)) later
      ∙ sort-Numbered (0 + after) (drop after es) (Numbered-drop 0 after es (h task_id)))

add_event-IsNumbered :
    (task_id event_type : String) (payload : Fields) (db : A2aDb)
    → IsNumbered db
    → IsNumbered (add_event task_id event_type payload db).1
unfolding add_event events_of
add_event-IsNumbered task_id event_type payload db h other =
    let es = events_of task_id db.events in
    let new : Event = record {
      task_id = task_id;
      event_type = event_type;
      sequence = last_sequence es + 1;
      payload = payload;
    } in
    rw (keep-append (λ (e : Event). str_eq e.task_id other) db.events (new ∷ []))
      (elim (Bool-cases (str_eq task_id other)) [
        | inl e ↦
            let same : task_id ≡ other = (eq_iff task_id other).0 e in
            rw e (
              Numbered-append 0 (events_of other db.events) new (h other) (
                ap (λ (t : String). last_sequence (events_of t db.events) + 1) same
                ∙ omega (arith, last-Numbered 0 (events_of other db.events) (h other))))
        | inr e ↦ rw e (rw (append-nil (events_of other db.events)) (h other))
      ])

-- The operations that add events
pub data Operation : Type 0 where
  created : TaskRequest → Operation
  task_marked : Task → Mark → Operation
  artifact_added : String → ArtifactRequest → Operation

abbrev pub run_operation : A2aEnv → Operation → A2aDb → A2aDb
run_operation env (created r) db = (create_task env r db).1
run_operation env (task_marked task k) db = (mark_task env task k db).1
run_operation env (artifact_added task_id r) db = (add_artifact env task_id r db).1

unfoldable pub run_operations : A2aEnv → List Operation → A2aDb → A2aDb
run_operations env [] db = db
run_operations env (o ∷ os) db = run_operations env os (run_operation env o db)

run_operation-IsNumbered :
    (env : A2aEnv) (o : Operation) (db : A2aDb)
    → IsNumbered db
    → IsNumbered (run_operation env o db)
unfolding create_task add_task mark_task save_task add_artifact insert_artifact add_event emit_to
    audit_to
run_operation-IsNumbered env (created r) db h = add_event-IsNumbered _ _ _ (add_task env r db).1 h
run_operation-IsNumbered env (task_marked task k) db h =
    add_event-IsNumbered _ _ _ (save_task (marked env task k) db).1 h
run_operation-IsNumbered env (artifact_added task_id r) db h =
    add_event-IsNumbered _ _ _ (insert_artifact env task_id r db).1 h

-- However tasks are created and marked and artifacts are added, the events of each task stay numbered
-- 1, 2, 3 and so on, in the order of their insertion.
pub run_operations-IsNumbered :
    (env : A2aEnv) (os : List Operation) (db : A2aDb)
    → IsNumbered db
    → IsNumbered (run_operations env os db)
unfolding run_operations
run_operations-IsNumbered env [] db h = h
run_operations-IsNumbered env (o ∷ os) db h =
    run_operations-IsNumbered env os (run_operation env o db) (run_operation-IsNumbered env o db h)
