-- ===== src/Resources.antt =====
-- The resource builders and the validation of pkg/workspace/resources.go. The scheme of the
-- source's builders is part of `set_controller_reference`.
pub mod Names
pub mod Build
pub mod Validate
