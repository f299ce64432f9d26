-- ===== src/Run.antt =====
-- crates/prek/src/run.rs: running one hook over batches of filenames.
pub mod Limits
pub mod Partitions
pub mod Output
pub mod Batch
