-- ===== src/Tools/Audit.antt =====
-- The row that every run of a handler leaves in the table of tool runs.
use soul_claw.Base.{
  ◌+◌, String, Bool, true, ◌≡◌, refl, inl, inr, List, [], ◌∷◌, ◌++◌, none, some, arith, Result, ok,
  err, PyError, is_permission, Json, Fields, flag, string, obj, end, field, field_put, eq_iff,
  if◌then◌else◌, emit, info, Bool-cases, str_exc,
}
use soul_claw.Tools.State.{ToolRun, ToolDb, ToolEnv, Handler, put_run, find_run}
use soul_claw.Tools.Executor.{Executed, id_json, run_tool, settle_run}

put_run-append :
    (rs : List ToolRun) (r row : ToolRun)
    → find_run row.id rs ≡ none
    → r.id ≡ row.id
    → put_run row (rs ++ (r ∷ [])) ≡ rs ++ (row ∷ [])
unfolding find_run put_run
put_run-append [] r row h e = ground (arith, eq_iff r.id row.id)
put_run-append (q ∷ rs) r row h e = ground (arith, put_run-append rs r row)

-- What a finished row says of the call's outcome.
pub record Closed (env : ToolEnv) (name : String) (arguments : Fields) (outcome : Result Executed)
    (run : ToolRun) : Type 0 where
  pub call : (run.tool_name ≡ name) × (run.arguments ≡ arguments)
  pub finished : run.finished_at ≡ some env.now
  pub returned :
      (x : Executed)
      → outcome ≡ ok x
      → (run.status ≡ "succeeded") × (run.result ≡ x.result) × (run.id ≡ x.tool_run_id)
  pub raised :
      (e : PyError)
      → outcome ≡ err e
      → (run.status ≡ (if is_permission e then "approval_required" else "failed"))

module _ {S : Type 0} where
  -- The table after the handler, from the table before and the outcome.
  Leaves : ToolEnv → String → Fields → List ToolRun → Result Executed × ToolDb S → Type 0
  Leaves env name arguments before (r, after) =
      (run : ToolRun) × (after.runs ≡ before ++ (run ∷ [])) × Closed env name arguments r run

  settle_run-Leaves :
      (env : ToolEnv) (before : List ToolRun) (run : ToolRun) (r : Result Json × ToolDb S)
      → find_run run.id before ≡ none
      → r.1.runs ≡ before ++ (run ∷ [])
      → Leaves env run.tool_name run.arguments before (settle_run env run r)
  unfolding Leaves settle_run
  settle_run-Leaves env before run (ok v, db) new runs =
      let row : ToolRun = record run {
        status = "succeeded";
        result = v;
        finished_at = some env.now;
      } in
      (
        row,
        rw runs (put_run-append before run row new refl),
        record {
          call = (refl, refl);
          finished = refl;
          returned = ground arith;
          raised = ground arith;
        },
      )
  settle_run-Leaves env before run (err e, db) new runs = elim (Bool-cases (is_permission e)) [
    | inl permission ↦
        (let row : ToolRun = record run {
          status = "approval_required";
          result = obj (
              field "error" (string (str_exc e)) (
                field "approval_id"
                  (id_json (if env.has_platform then some (env.uuid4 db.supply) else none)) end));
          finished_at = some env.now;
        } in
          (
            row,
            ground (arith, put_run-append before run row new),
            record {
              call = (refl, refl);
              finished = refl;
              returned = ground arith;
              raised = rw permission (ground arith);
            },
          ))
    | inr other ↦
        (let row : ToolRun = record run {
          status = "failed";
          result = obj (field "error" (string (str_exc e)) end);
          finished_at = some env.now;
        } in
          (
            row,
            ground (arith, put_run-append before run row new),
            record {
              call = (refl, refl);
              finished = refl;
              returned = ground arith;
              raised = ground arith;
            },
          ))
  ]

-- A run of a handler that leaves the table of tool runs alone adds exactly one row, with the call's tool
-- and arguments and the time it ended. The row says how it ended: `succeeded` with the result that is
-- returned, `approval_required` where the handler raised a PermissionError, and `failed` for any other
-- exception; it is never left `running`.
pub run_tool_closes :
    {S : Type 0} (env : ToolEnv) (handler : Handler S) (name : String) (arguments : Fields)
    (turn_id : String) (approved : Bool) (db : ToolDb S)
    → find_run (env.uuid4 db.supply) db.runs ≡ none
    → ((a : Fields) (s : ToolDb S) → (handler a s).1.runs ≡ s.runs)
    → (run : ToolRun) × ((run_tool env handler name arguments turn_id approved db).1.runs
        ≡ db.runs ++ (run ∷ []))
      × Closed env name arguments (run_tool env handler name arguments turn_id approved db).0 run
unfolding run_tool Leaves
run_tool_closes {S} env handler name arguments turn_id approved db new keeps =
    let run : ToolRun = record {
      id = env.uuid4 db.supply;
      turn_id = turn_id;
      tool_name = name;
      status = "running";
      arguments = arguments;
      result = obj (field "checkpoint" (string (env.uuid4 (db.supply + 1))) end);
      finished_at = none;
    } in
    let s : ToolDb S = record db {
      runs = db.runs ++ (run ∷ []);
      supply = db.supply + 1 + 1;
      sink =
          emit "tool.started" info
            (field "tool_run_id" (string run.id) (field "tool_name" (string name) end)) db.sink;
    } in
    let args : Fields =
      if approved then field_put "_approved" (flag true) arguments else arguments in
    settle_run-Leaves env db.runs run (handler args s) new (keeps args s)
