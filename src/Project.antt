-- ===== src/Project.antt =====
-- crates/node/src: submitting a project, fetching its snapshot and running it.
pub mod Catalog
pub mod Snapshot
pub mod Fetch
pub mod Executor
pub mod Client
pub mod Lifecycle
