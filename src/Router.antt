-- ===== src/Router.antt =====
-- router/: how a handler makes a submission happen once.
pub mod Reservation
pub mod Locks
