-- ===== src/Db.antt =====
-- The data layer: the database table as an interface, and the four repositories of
-- packages/db/src/repositories over it.
pub mod Sql
pub mod Changes
pub mod Files
pub mod Tables
pub mod FileRepository
pub mod Users
pub mod UserRepository
pub mod ApiKeys
pub mod ApiKeyRepository
pub mod Jobs
pub mod JobRepository
