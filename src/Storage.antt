-- ===== src/Storage.antt =====
-- berth-hub/src/storage.rs: the operations on the database, one child module for each table's.
pub mod Tokens
pub mod Platform
pub mod Rows
pub mod EnvVars
pub mod Apps
pub mod Deployments
pub mod Hosts
pub mod Listing
pub mod Tests
