-- ===== src/Runtime.antt =====
-- runtime/core/src: entities, the state of a component, operations, and the storage connector
-- connectors/storages.mongodb/src.
pub mod Eff
pub mod Entity
pub mod Storage
pub mod Criteria
pub mod Difference
pub mod Queries
pub mod State
pub mod Operation
pub mod Invocation
pub mod Calls
pub mod Concurrency
