-- ===== src/Aggregator.antt =====
-- aggregator: the metrics of clusters, computed from expressions over the counters of their hosts.
pub mod Expression
pub mod Run
pub mod Workers
mod Tests
