-- ===== src/Agent/Tests.antt =====
-- The theorems on the agent's loop at a concrete turn.
use soul_claw.Base.{
  none, false, ◌+◌, ◌≤◌, String, true, false, ◌≡◌, refl, List, [], ◌∷◌, ok, num, end, f_string, str,
}
use soul_claw.Tools.State.{Handler, Approval, find_approval}
use soul_claw.Agent.State.{Checkpoint}
use soul_claw.Tools.Builtin.{definition}
use soul_claw.Agent.State.{Call, Message, content_message, LlmToolCall, replied, AgentEnv, Turn}
use soul_claw.Agent.Loop.{run_llm}
use soul_claw.Agent.Asked.{run_turn-completions}
use soul_claw.Agent.Pairing.{paired, messages_of, run_llm-paired}
use soul_claw.Agent.Resume.{save_row}
use soul_claw.Agent.Decide.{resume_turn}
use soul_claw.Agent.Decisions.{resume_ignores_status}
use soul_claw.Agent.Start.{TurnEnv}
use soul_claw.Agent.Whole.{run_turn}
use soul_claw.Agent.Messages.{Spoken, run_turn-Spoken}

abbrev answer : Handler (List String)
answer arguments db = (ok (num 1), record db { rest = "ran" ∷ db.rest })

-- A model that asks for a search and a send, over and over.
abbrev asked : List LlmToolCall
asked =
    record { name = "wiki_search"; arguments = end; id = "" }
    ∷ record { name = "gateway_send"; arguments = end; id = "b" }
    ∷ []

abbrev env : AgentEnv (List String)
env = record {
  tool_env = record {
    now = 5;
    uuid4 = λ n. f_string ("id-" ∷ str n ∷ []);
    repr = λ d. "";
    lower = λ s. s;
    has_platform = true;
  };
  registry = record {
    tools =
        definition "wiki_search" "Search" "wiki.read" false answer
        ∷ definition "gateway_send" "Send" "external.write" true answer
        ∷ [];
    sink = record { attached = true; runtime = []; audits = [] };
    max_direct_tool_schemas = 32;
  };
  has_tools = true;
  has_conversation = true;
  llm_configured = true;
  complete = λ n messages. replied (record { content = "next"; tool_calls = asked });
  dumps = λ r. "{}";
  normalize = λ s. s;
  update_summary = λ session_id rest. (true, rest);
}

abbrev turn : Turn (List String)
turn = record {
  db = record {
    runs = [];
    approvals = [];
    sink = record { attached = true; runtime = []; audits = [] };
    supply = 0;
    rest = [];
  };
  transcript = [];
  checkpoints = [];
  completions = 0;
}

abbrev messages : List Message
messages = content_message "system" "You are SoulClaw." ∷ content_message "user" "Send it." ∷ []

run_llm-paired_example : paired [] (messages_of (run_llm env "t" "s" messages turn).0) ≡ true
run_llm-paired_example = run_llm-paired env "t" "s" refl messages turn refl

abbrev refuse : String → Handler (List String)
refuse name arguments db = (ok (num 0), record db { rest = [] })

abbrev sent : Call
sent = record { id = "b"; name = "gateway_send"; arguments = end; approved = false }

abbrev asked_approval : Approval
asked_approval = record {
  id = "ap";
  status = "rejected";
  subject_type = "tool_run";
  subject_id = "gateway_send";
  payload = end;
  turn_checkpoint = end;
  original_tool_call = end;
  allowed_decisions = [];
  edited_arguments = end;
  resume_state = end;
  resolved_at = none;
}

abbrev checkpoint : Checkpoint
checkpoint = record {
  session_id = "s";
  turn_id = "t";
  messages = messages;
  tool_calls = sent ∷ [];
  tool_results = [];
  round_tool_calls = sent ∷ [];
  round_completed_results = [];
  pending_tool_call = sent;
  pending_index = 0;
  round_index = 3;
}

abbrev waiting : Turn (List String)
waiting = record turn {
  db = record (turn.db) { approvals = asked_approval ∷ [] };
  checkpoints = ("ap", checkpoint) ∷ [];
}

resume_ignores_status_example :
    resume_turn env "ap" "approve" end ""
      (save_row (record asked_approval { status = "pending" }) waiting)
    ≡ resume_turn env "ap" "approve" end "" waiting
unfolding find_approval
resume_ignores_status_example =
    resume_ignores_status env "ap" "approve" "" end waiting asked_approval checkpoint refl refl refl
      "pending" refl refl

abbrev whole : TurnEnv (List String)
whole = record {
  agent = env;
  delegate = none;
  gather =
      λ message db. record { wiki_pages = 1; wiki_hits = 0; resident = 0; dynamic = 2; skills = 0 };
  prompt = λ session_id message before db. messages;
}

-- The model asks for the tool that wants an approval.
run_turn-Spoken_example : Spoken env "Send it." "s" turn (run_turn whole "Send it." "s" none turn)
run_turn-Spoken_example = run_turn-Spoken whole "Send it." "s" none turn refl

run_turn-completions_example : (run_turn whole "Send it." "s" none turn).1.completions ≤ 0 + 6
run_turn-completions_example = run_turn-completions whole "Send it." "s" none turn
