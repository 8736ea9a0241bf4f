-- ===== src/Tenancy/Models.antt =====
-- app/tenancy/models.py: the audit and outbox rows, and their inserts. The columns that only the
-- database or the publisher fills are left out; `recorded_at` is `none` where the database fills it.
use wanderra_os.Base.{ℕ, Bool, ◌&&◌, ◌||◌, Option, List, any, ◌==◌}
use wanderra_os.Base.Text.{Text, text_eq}
use wanderra_os.Base.Json.{Fields}
use wanderra_os.Jobs.Contracts.{Instant}

pub record AuditEvent : Type 0 where
  pub workspace_id : ℕ
  pub id : ℕ
  pub actor_type : Text
  pub actor_id : Option ℕ
  pub action : Text
  pub target_type : Text
  pub target_id : ℕ
  pub outcome : Text
  pub details : Fields
  pub decision_id : Option ℕ
  pub correlation_id : Option Text
  pub classification : Text

pub record OutboxEvent : Type 0 where
  pub workspace_id : ℕ
  pub id : ℕ
  pub event_type : Text
  pub schema_version : ℕ
  pub aggregate_type : Text
  pub aggregate_id : ℕ
  pub aggregate_sequence : ℕ
  pub payload : Fields
  pub actor_id : Option ℕ
  pub delegation_id : Option ℕ
  pub correlation_id : Option Text
  pub causation_id : Option ℕ
  pub classification : Text
  pub schema_major : ℕ
  pub schema_minor : ℕ
  pub idempotency_key : Option Text
  pub payload_digest : Option Text
  pub recorded_at : Option Instant
  pub partition_key : Option Text

-- `pk_audit_events`
abbrev pub same_audit : AuditEvent → AuditEvent → Bool
same_audit r x = (x.workspace_id == r.workspace_id) && (x.id == r.id)

unfoldable pub audit_taken : AuditEvent → List AuditEvent → Bool
audit_taken r rows = any (same_audit r) rows

-- `pk_outbox_events` and `uq_outbox_aggregate_sequence`
abbrev pub same_outbox : OutboxEvent → OutboxEvent → Bool
same_outbox r x =
    (x.workspace_id == r.workspace_id)
    && ((x.id == r.id)
        || (text_eq x.aggregate_type r.aggregate_type
            && (x.aggregate_id == r.aggregate_id)
            && (x.aggregate_sequence == r.aggregate_sequence)))

unfoldable pub outbox_taken : OutboxEvent → List OutboxEvent → Bool
outbox_taken r rows = any (same_outbox r) rows
