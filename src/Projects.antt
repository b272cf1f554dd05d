-- ===== src/Projects.antt =====
-- src/plugins/projects.
pub mod Value
pub mod Dates
pub mod Submission
pub mod Permissions
pub mod States
pub mod Submit
pub mod StatusChange
pub mod Edits
pub mod Funding
pub mod Mapper
pub mod Reference
