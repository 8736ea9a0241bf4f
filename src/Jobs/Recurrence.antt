-- ===== src/Jobs/Recurrence.antt =====
-- The instants that app/jobs/contracts.py computes for a schedule.
pub mod Next
pub mod Due
