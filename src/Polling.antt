-- ===== src/Polling.antt =====
-- protocol/async.go: the delay between two status polls, and the loop of `gateway_wait`.
pub mod Backoff
pub mod Wait
