-- ===== src/Money.antt =====
-- Package money (pkg/core/money): the currency registry, the arithmetic of amounts on int64, the
-- rounding modes and the accrual of interest. The definitions stand in the children; what is
-- proved about each stands in the modules below it.
pub mod Currency
pub mod Amount
pub mod Rounding
pub mod Accrual
