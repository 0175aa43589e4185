-- ===== src/Schema.antt =====
-- The rows of the database tables and their enumerations, one child for each package that declares
-- tables, and the database that holds the tables.
pub mod Workspace
pub mod Security
pub mod Outbox
pub mod Artifact
pub mod Approval
pub mod Git
pub mod Ide
pub mod Audit
pub mod Task
pub mod Database
