-- ===== src/Agent.antt =====
-- The agent: the tool loop of backend/runtime/agent.py.
pub mod State
pub mod Calls
pub mod Loop
pub mod Resume
pub mod Continue
pub mod Decide
pub mod Rounds
pub mod Asked
pub mod Pending
pub mod Pairing
pub mod Gated
pub mod Answers
pub mod Start
pub mod Whole
pub mod Transcript
pub mod Messages
pub mod Decisions
mod Tests
