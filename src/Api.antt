-- ===== src/Api.antt =====
-- sigmascope/api.py: from what was collected to a report.
pub mod Evidence
pub mod Linux
pub mod Policy
pub mod Windows
pub mod Run
