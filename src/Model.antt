-- ===== src/Model.antt =====
-- Package model (pkg/core/model): positions, contracts, snapshots, events and the derived state.
-- An identifier is an opaque text.
pub mod Names
pub mod Buckets
pub mod Loan
pub mod Event
pub mod State
