-- ===== src/Core.antt =====
-- What the services of apps/api/app share: the exceptions with their HTTP statuses, database
-- sessions, and the rows of the tables.
pub mod Exceptions
pub mod Session
pub mod Rows
pub mod Members
pub mod Models
