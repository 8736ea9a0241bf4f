-- ===== src/Messaging/Audit.antt =====
-- `AuditWriterService` of app/messaging/service.py. `verify_chain` is a query of a database
-- function.
use wanderra_os.Base.{ℕ, Option, none, some}
use wanderra_os.Base.Text.{codes}
use wanderra_os.Base.Json.{Fields, end}
use wanderra_os.Base.Action.{◌>>=◌, ◌>>◌, pure, lift}
use wanderra_os.Tenancy.Models.{AuditEvent}
use wanderra_os.Messaging.Contracts.{AuditInput, safe_payload}
use wanderra_os.Messaging.Models.{MessagingContext}
use wanderra_os.Messaging.Repository.{MessagingAction, uuid4, add_audit}

abbrev pub fields_or_none : Option Fields → Fields
fields_or_none none = end
fields_or_none (some fs) = fs

abbrev pub decision_or : Option ℕ → ℕ → ℕ
decision_or none id = id
decision_or (some id) _ = id

-- `write`
unfoldable pub write : {D : Type 0} → MessagingContext → AuditInput → MessagingAction D AuditEvent
write m audit = do
  details ← lift (safe_payload (fields_or_none audit.details))
  id ← uuid4 m
  let event : AuditEvent = record {
    workspace_id = m.context.tenant.workspace_id;
    id = id;
    actor_type = codes "user";
    actor_id = some m.context.actor.actor_id;
    action = audit.action;
    target_type = audit.target_type;
    target_id = audit.target_id;
    outcome = audit.outcome;
    details = details;
    decision_id = some (decision_or audit.decision_id m.context.actor.authorization_decision_id);
    correlation_id = some m.context.request.correlation_id;
    classification = audit.classification;
  }
  add_audit event
  pure event
