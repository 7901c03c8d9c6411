-- ===== src/Metrics.antt =====
-- metrics: the statistics of the streams.
pub mod Collector
pub mod Statistics
pub mod Updater
