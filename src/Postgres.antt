-- ===== src/Postgres.antt =====
-- internal/dataaccess/repositories/postqbuild: the repositories as SQL statements.
pub mod Statements
pub mod Methods
pub mod Tables
pub mod Answers
pub mod Memory
pub mod Users
pub mod Requests
pub mod Subscriptions
pub mod Datasets
pub mod Versions
pub mod MetadataRows
pub mod Notifications
pub mod Reviews
pub mod Categories
mod Tests
