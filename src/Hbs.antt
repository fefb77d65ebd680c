-- ===== src/Hbs.antt =====
-- hbs: the strategies of each host, from the templates of its groups and their ancestors.
pub mod Agents
pub mod Parents
pub mod Buckets
mod Tests
