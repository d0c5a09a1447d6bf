-- ===== src/Messaging/Audit.antt =====
-- src/modules/audit/audit.service.ts: `log`, which only adds rows.
use back_end.Prelude.{String, Bool, true, false, Option, none, some}
use back_end.Database.Json.{Json}
use back_end.Database.Enums.{ActorType}
use back_end.Database.Orm.{Orm}
use back_end.Database.Entities.{Uuid, AuditLog}
use back_end.World.{World, Action, bad_request, throw_if, modify, ◌>>◌}

-- An entry and the id that a caller may not give.
pub record AuditLogEntryInput : Type 0 where
  pub id : Option Uuid
  pub row : AuditLog

abbrev has_id : Option Uuid → Bool
has_id none = false
has_id (some _) = true

module _ (orm : Orm) where
  -- The row added to the table.
  abbrev pub with_log : AuditLog → World → World
  with_log row w = record w { audit_logs = orm.insert row w.audit_logs }

  unfoldable pub log : AuditLogEntryInput → Action (Unit {0})
  log entry = do
    throw_if (has_id entry.id) (bad_request "Audit log rows are immutable")
    modify (with_log entry.row)

-- The row that a service logs for a user's act on a workflow.
abbrev pub user_entry :
    Option Uuid → Uuid → String → Option String → Option Json → Option Json → AuditLogEntryInput
user_entry workflow_id actor_id event_type element_id before after = record {
  id = none;
  row = record {
    workflow_id = workflow_id;
    actor_id = some actor_id;
    actor_type = ActorType.user;
    event_type = event_type;
    element_id = element_id;
    before_state = before;
    after_state = after;
  };
}
