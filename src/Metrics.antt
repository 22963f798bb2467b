-- ===== src/Metrics.antt =====
-- metrics/: the runtime metrics of the process.
pub mod Collector
