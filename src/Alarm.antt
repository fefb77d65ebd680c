-- ===== src/Alarm.antt =====
-- alarm: events become messages to users; those of low priority are combined first.
pub mod Messages
pub mod Consume
pub mod Combine
mod Tests
