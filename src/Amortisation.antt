-- ===== src/Amortisation.antt =====
-- Package amortisation (pkg/core/amortisation): the schedule that a contract and a balance imply,
-- and the level instalment that clears a loan by its maturity. The children are one for each way
-- to repay, and one for the dates of the instalments.
pub mod Dates
pub mod Rows
pub mod Level
pub mod Declining
pub mod Solve
pub mod Build
