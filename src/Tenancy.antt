-- ===== src/Tenancy.antt =====
-- The rows of app/tenancy that every service writes: audit events and outbox events.
pub mod Models
