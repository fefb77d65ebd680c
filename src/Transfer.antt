-- ===== src/Transfer.antt =====
-- transfer: the values that agents report are checked, converted and put into the queues of graph,
-- judge and tsdb.
pub mod Types
pub mod Convert
pub mod Receive
pub mod Push
mod Tests
