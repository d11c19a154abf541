-- ===== src/Metric.antt =====
-- network/components/metric: the component that measures how long replies take.
pub mod Samples
pub mod Latest
pub mod Recent
pub mod Beginning
pub mod Runs
pub mod Statistics
pub mod Counts
pub mod Misplaced
