-- ===== src/Tests.antt =====
-- Concrete runs of the engine, each of them also an application of a theorem.
mod Money
mod Date
mod Amortisation
mod Plan
mod Loans
mod Sim
