-- ===== src/Collect/Windows.antt =====
-- sigmascope/collect/windows: the collectors for Windows, over the calls of its libraries.
pub mod Calls
pub mod AuditpolCli
pub mod Registry
pub mod Channels
pub mod Services
pub mod Guid
pub mod Image
pub mod Sysmon
pub mod Handles
pub mod CliRows
pub mod Reported
pub mod AuditpolNative
