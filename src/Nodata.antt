-- ===== src/Nodata.antt =====
-- nodata: the status of each counter that must report, and the values that are made up for it.
pub mod Judging
pub mod Collecting
pub mod Sending
mod Tests
