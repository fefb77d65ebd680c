-- ===== src/Graph.antt =====
-- graph: the items that wait in memory, their index, and the files they go to.
pub mod Linked
pub mod Crc
pub mod Table
pub mod Keys
pub mod History
pub mod Index
pub mod Receive
pub mod Flush
pub mod Query
pub mod Api
mod Tests
