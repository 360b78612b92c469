-- ===== src/Parse.antt =====
-- sigmascope/parse: collected text to gates and rules.
pub mod AuditpolCsv
pub mod AuditdRules
pub mod AuditdStatus
pub mod SysmonCurrent
