-- ===== src/Scripts.antt =====
-- scripts: the decisions of the scripts for releases and for the validation on Windows.
pub mod TestPypi
pub mod ReleaseTag
pub mod Validation
