-- ===== src/Judge.antt =====
-- judge: the window of recent values of each counter, the functions of a strategy over it, and the
-- alarm events.
pub mod Types
pub mod Window
pub mod Func
pub mod Parse
pub mod Alarm
pub mod Rules
pub mod Store
pub mod Sync
mod Tests
