-- ===== src/Plan.antt =====
-- The planner of pkg/core/plan: its rules, and the run of one policy.
pub mod Shares
pub mod Rules
pub mod Fees
pub mod Period
pub mod Growth
pub mod Release
pub mod Input
pub mod Outcome
pub mod State
pub mod Obligation
pub mod Quote
pub mod Sim
pub mod Normalise
pub mod Strategy
