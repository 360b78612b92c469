-- ===== src/Checks.antt =====
-- Tests of the definitions on concrete inputs, and the theorems at such inputs.
mod Parsing
mod Compute
mod Data
mod Auditd
mod Others
mod Runs
mod Sysmon
mod Collect
mod Policy
mod Scripts
