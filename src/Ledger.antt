-- ===== src/Ledger.antt =====
-- Package ledger (pkg/core/ledger): a loan's position rebuilt from facts. `Replay` stands in the
-- child `Replay`, what it is made of in the others. The fingerprint of the events (`hashEvents`) is
-- not modelled.
pub mod Accrual
pub mod Partition
pub mod Replay
