-- ===== src/Base/Events.antt =====
-- The event bus of backend/infra/events.py, as the services use it: what they emit and audit is
-- kept in order. Persistence errors are swallowed by the bus and are not modelled.
use Prim.Native.String.{String}
use mathlib.Core.Bool.{Bool}
use mathlib.Core.List.{List, ◌∷◌}
use soul_claw.Base.Tests.{if◌then◌else◌}
use soul_claw.Base.Values.{Fields}

pub data Severity : Type 0 where
  info warning error : Severity

pub record RuntimeEvent : Type 0 where
  pub event_type : String
  pub severity : Severity
  pub payload : Fields

pub record AuditEvent : Type 0 where
  pub action : String
  pub target_type : String
  pub target_id : String
  pub payload : Fields

-- `attached` is false for a service that was built with `events=None`. Newest first.
pub record Sink : Type 0 where
  pub attached : Bool
  pub runtime : List RuntimeEvent
  pub audits : List AuditEvent

unfoldable pub emit : String → Severity → Fields → Sink → Sink
emit name severity payload s =
    if s.attached
    then record s {
      runtime = record { event_type = name; severity = severity; payload = payload } ∷ s.runtime;
    }
    else s

unfoldable pub audit : String → String → String → Fields → Sink → Sink
audit action target_type target_id payload s =
    if s.attached
    then record s {
      audits =
          record {
            action = action;
            target_type = target_type;
            target_id = target_id;
            payload = payload;
          }
          ∷ s.audits;
    }
    else s
