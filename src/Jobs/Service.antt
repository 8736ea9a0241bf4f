-- ===== src/Jobs/Service.antt =====
-- app/jobs/service.py, the class `JobService`, method by method: `Guards` and `Enqueue` hold the
-- checks and the enqueue, `Lifecycle` what workers call, `Operator` what operators call, and
-- `Dispatch` the schedules.
pub mod Guards
pub mod Enqueue
pub mod Lifecycle
pub mod Operator
pub mod Dispatch
