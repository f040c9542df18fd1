-- ===== src/Tools.antt =====
-- The package `tools`.
pub mod Debug
mod Tests
pub mod BlockCounter
pub mod TimedCounter
pub mod Metric
pub mod MetricWriter
pub mod Ding
