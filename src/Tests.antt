-- ===== src/Tests.antt =====
-- Concrete runs of the code's functions, with small trees, families and streams.
pub mod Trees
pub mod Requests
pub mod Access
pub mod Streams
pub mod Calls
pub mod Stores
pub mod Operations
pub mod Issuers
pub mod Wires
pub mod Declarations
pub mod Identities
pub mod Batches
pub mod Disks
pub mod SignIns
pub mod Octets
pub mod Subscriptions
pub mod Changes
