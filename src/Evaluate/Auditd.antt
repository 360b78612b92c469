-- ===== src/Evaluate/Auditd.antt =====
-- sigmascope/evaluate/auditd.py
pub mod Rules
pub mod Suppression
pub mod ProcessCreation
pub mod FileWatch
pub mod Kernel
pub mod Coverage
pub mod Covered
pub mod NotCovered
pub mod OtherArch
pub mod NeverRules
pub mod Watches
pub mod Targets
