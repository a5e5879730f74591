-- ===== src/Plan/Sim.antt =====
-- pkg/core/plan/sim.go, cash_routing.go and spending.go: the run of one policy, event by event.
pub mod Payment
pub mod Reserve
pub mod Allocate
pub mod Routed
pub mod Cycle
pub mod Periods
pub mod Events
pub mod Accepted
pub mod Start
pub mod Run
pub mod Worth
