-- ===== src/Provider.antt =====
-- provider/cocoon: the provider's tables and the operations on them.
pub mod State
pub mod Track
pub mod Lifecycle
pub mod World
pub mod Flush
pub mod Retry
pub mod Resume
pub mod Sections
pub mod Status
pub mod Runtime
pub mod Hibernate
pub mod Ready
pub mod Quiet
pub mod Evict
pub mod Delete
pub mod Evidence
pub mod Stale
pub mod Image
pub mod Source
pub mod Wake
pub mod Prepare
pub mod BringUp
pub mod Create
pub mod Endpoint
pub mod Macos
pub mod Dispatch
pub mod Startup
pub mod Update
pub mod PostClone
pub mod Reclaim
