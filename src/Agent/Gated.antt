-- ===== src/Agent/Gated.antt =====
-- The approval gate over a whole turn of the agent: the handlers behind it play no part.
use soul_claw.Base.{String, Option, none, some, map, if◌then◌else◌}
use soul_claw.Tools.State.{ToolDefinition, Handler}
use soul_claw.Tools.Registry.{Registry}
use soul_claw.Agent.State.{AgentEnv}

module _ {S : Type 0} (other : String → Handler S) where
  abbrev pub other_handler : Handler S → Option (Handler S) → Option (Handler S)
  other_handler h none = none
  other_handler h (some old) = some h

  -- A tool that requires an approval gets another handler in the place of its own.
  abbrev pub rearm : ToolDefinition S → ToolDefinition S
  rearm d = record d {
    handler = if d.requires_approval then other_handler (other d.name) d.handler else d.handler;
  }

  abbrev pub rearmed_registry : Registry S → Registry S
  rearmed_registry reg = record reg { tools = map rearm reg.tools }

  abbrev pub rearmed : AgentEnv S → AgentEnv S
  rearmed env = record env { registry = rearmed_registry env.registry }

  abbrev rearm_found : Option (ToolDefinition S) → Option (ToolDefinition S)
  rearm_found none = none
  rearm_found (some d) = some (rearm d)
