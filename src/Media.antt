-- ===== src/Media.antt =====
-- db/: the assets, objects and jobs of stored media.
pub mod Rows
pub mod Assets
pub mod Objects
pub mod Deletion
pub mod Jobs
pub mod Materialize
pub mod DeletionJobs
pub mod System
pub mod Closed
pub mod Storing
pub mod Removing
pub mod Fetching
pub mod Revocation
pub mod Untouched
pub mod Completion
pub mod Numbering
pub mod Tests
