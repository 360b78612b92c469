-- ===== src/Evaluate.antt =====
-- sigmascope/evaluate: coverage verdicts from parsed configuration.
pub mod Auditd
pub mod Sysmon
pub mod WindowsGates
pub mod Resolver
