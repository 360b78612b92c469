-- ===== src/Collect.antt =====
-- sigmascope/collect: what is read from the host.
pub mod Process
pub mod Linux
pub mod Windows
