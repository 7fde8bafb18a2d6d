-- ===== src/Audit/Log.antt =====
-- apps/api/app/audit/tenant_models.py and service.py: the rows of the audit log, and the one function
-- that writes them, in the transaction of the action that they record.
use blank.Prelude.{ℕ, Option, List, ◌∷◌, String}

-- `AuditEvent`; the payload is the text of its JSON object.
pub record AuditEvent : Type 0 where
  pub id : ℕ
  pub occurred_at : ℕ
  pub actor_user_id : Option ℕ
  pub actor_label : String
  pub action : String
  pub resource_type : String
  pub resource_id : String
  pub payload : String

abbrev pub system_actor_label : String
system_actor_label = "system"

-- `record_audit_event`, on the log that the session sees; the server gives the row its instant.
unfoldable pub record_audit_event :
    (id occurred_at : ℕ) (action resource_type resource_id payload : String)
    (actor_user_id : Option ℕ) (actor_label : String)
    → List AuditEvent
    → List AuditEvent
record_audit_event id occurred_at action resource_type resource_id payload actor_user_id actor_label
      log =
    record {
      id = id;
      occurred_at = occurred_at;
      actor_user_id = actor_user_id;
      actor_label = actor_label;
      action = action;
      resource_type = resource_type;
      resource_id = resource_id;
      payload = payload;
    }
    ∷ log
