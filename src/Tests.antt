-- ===== src/Tests.antt =====
-- Runs of the models on small inputs, and the theorems applied to them.
pub mod CuckooIndex
pub mod Tables
pub mod Schemas
pub mod Progresses
pub mod Hashes
pub mod RedoLogs
pub mod MetaStores
pub mod Kafkas
pub mod Ingestions
