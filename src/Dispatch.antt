-- ===== src/Dispatch.antt =====
-- service/dispatcher.go: the circuit breakers, the schedule, the candidates and the failover loop.
pub mod Breaker
pub mod Channel
pub mod Candidates
pub mod Pools
pub mod Schedule
pub mod Failover
pub mod Profile
