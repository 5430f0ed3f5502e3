-- ===== src/Storage.antt =====
-- crates/storage/src: content-addressed storage after Git's model.
pub mod Decimal
pub mod Objects
pub mod Store
pub mod Diff
pub mod Pack
