-- ===== src/Date.antt =====
-- Package date (pkg/core/date): calendar dates without a clock. The children hold the calendar and
-- the schedule arithmetic; the modules below them hold what is proved.
pub mod Calendar
pub mod Schedule
