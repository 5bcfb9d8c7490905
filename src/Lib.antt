-- ===== src/Lib.antt =====
-- SoulClaw, a self-hosted agent, modelled from its Python backend.
--
-- An agent (backend/runtime/agent.py) gathers the context of a message from memory and conversation,
-- asks a model for tool calls and executes them through the tool executor (backend/domain/tools.py),
-- which stops for approvals; it may hand a message to a remote agent (backend/domain/a2a.py). Messages
-- reach it through gateways (backend/runtime/gateway.py). Work in the background is jobs with an outbox
-- and idempotency records (backend/domain/jobs.py), executed by workers (backend/worker/tasks.py). Calls
-- of outside services go through retries and circuit breakers (backend/infra/resilience.py) and rate
-- limits (backend/infra/rate_limit.py).
--
-- Files and code:
-- - Base: shared names and lemmas. Base/Values and Base/Read are JSON values and how the code reads
--   them, Base/Actions is exceptions as values and actions that change a state and may raise,
--   Base/Events is what a service tells the event bus (backend/infra/events.py), kept in order,
--   Base/Trim is the methods of `str` that take text apart, and Base/Slices the lemmas on slices.
-- - Jobs: State (rows of backend/infra/models.py), Idempotency, Service, Outbox and Enqueue follow
--   `BackgroundJobService`, `enqueue_background_job` and the commit hook of backend/domain/jobs.py, and
--   Worker follows `_run_job` and `dispatch_task` of backend/worker/tasks.py. Rows, Effects and Runs
--   say what each operation does to the tables; Attempts, Dispatch, Stored, Once and Success are the
--   theorems.
-- - Tools: State, Floor (`ToolSafetyFloor`, its regular expressions as lists of atoms with a
--   backtracking matcher), Registry and Builtin (`ToolRegistry`), and Executor (`ToolExecutor`, and
--   `create_approval` of backend/domain/platform.py). Gate, Bypass, Audit and Names are the
--   theorems. A registry's handlers work on a session whose last part, `rest`, is any type.
-- - Agent: State, Calls (`_execute_tool_calls`, `_append_tool_messages`), Loop (`_continue_llm_loop`,
--   `_run_llm`), Resume, Continue and Decide (`resume_turn`, `_save_approval_checkpoint`,
--   `_finish_resumed_turn`), Answers (the delegation's test and the fallback answers), Start (the
--   context of a turn and its first calls) and Whole (`run_turn`). Rounds, Pending, Pairing, Asked,
--   Gated, Decisions, Transcript and Messages are the theorems.
-- - Conversation: Service and Summary follow `ConversationService` of backend/domain/conversation.py;
--   Counts, Waits, Context, Groups and Refine are the theorems, the last over a specification that
--   keeps the messages of each session and forgets the table.
-- - Memory: State, Files (the marked entries of the memory file), Lines and Sync (how they are read
--   back), Tokens, Index, Create, Service, Reports, Proposals, Ranking and Search follow `MemoryService`
--   of backend/domain/memory.py; Effects, Steps and Pieces say what its operations do to the rows and
--   the texts; Restore, Replace, Found, Applied and Printed are the theorems.
-- - A2a: State, Cards, Connections and Tasks follow `A2AService` of backend/domain/a2a.py; Stream and
--   Names are the theorems.
-- - Platform: State, Service (schedules, approvals, gateways) and Servers (MCP servers and their seed
--   file) follow `PlatformService` of backend/domain/platform.py; Schedules, Seeds and Reimport are the
--   theorems.
-- - Resilience: Policy and Call (`ResilienceManager.call`); Attempts and Circuit are the theorems.
-- - RateLimit: Limiter (`FixedWindowRateLimiter`); Windows has the theorems.
-- - Gateway: State, Verify (the checks of an inbound message) and Manager (`handle_inbound`, `send`,
--   `_deliver`, and `session_scope` of backend/infra/db.py); Replay and Failures are the theorems. Its
--   posts are calls of Resilience.
-- - Cron: Scheduler (`tick`, `_run_job`, `_dispatch_retryable_jobs` of backend/runtime/cron.py, over
--   Jobs); Rows and Minute are the theorems.
-- Each folder's Tests applies the theorems to concrete data.
--
-- Conventions: a table is a list of rows in the order of their insertion, a session is passed along as
-- a state, and a raise keeps the changes made before it until `session_scope` rolls the tables back.
-- Rows of one instant come in the order of their
-- insertion, but for the messages of a context, whose order is then a parameter. Numbers are natural;
-- times are microseconds in Jobs, Cron and Memory, seconds in RateLimit and Gateway, and milliseconds
-- in Resilience, where a delay is in hundredths of a millisecond so that the jitter is not rounded. The
-- floats of Memory are any type with the operations of the record `Floats`. Text handling is on ASCII.
--
-- Loops: the rounds of the agent are recursion on the rounds that are left, four as in the code, less
-- those before an interrupt; the attempts of a call are recursion on the attempts that are left, the
-- policy's `max_attempts` and at least one; every other loop follows its list. The printing of a number
-- has its value plus one as its rounds, more than it has digits. So nothing runs out of fuel.
--
-- Parameters, for code that is not in the repository: the clock, uuid4, digests and HMAC, `repr`,
-- `json.dumps`, `float`, `int` of a text, `uuid.UUID`, croniter, `str.lower`, `str.isalnum`, Celery's broker, the Redis client, the
-- HTTP client, the random draw, the model's provider and its client for summaries, the database's
-- full-text match and its ILIKE, and the value that a YAML file holds. The services behind the tools'
-- handlers, the context that a turn gathers, the remote agent that a turn delegates to, and the agent
-- behind a gateway are parameters of the parts that call them.
--
-- Not modelled: the wiki, skills, dream, heartbeat and MCP parts and the client of remote agents
-- (backend/runtime/a2a.py), which are components of their own; the sandbox policy; the HTTP
-- routes, settings, migrations, the command line and the frontend, which hold no state of their own;
-- `async_call` of the resilience manager, in which other tasks may run between two attempts; concurrent
-- sessions on one table.
pub mod Base
pub mod Jobs
pub mod Tools
pub mod Agent
pub mod Resilience
pub mod RateLimit
pub mod Gateway
pub mod Conversation
pub mod Memory
pub mod A2a
pub mod Platform
pub mod Cron
