-- ===== src/Hooks.antt =====
-- crates/prek/src/hooks: what a built-in hook returns, and the hooks over the bytes of one file.
pub mod Output
pub mod Bytes
pub mod EndOfFile
pub mod MixedLineEnding
pub mod ContentsSorter
pub mod MergeConflict
pub mod ByteOrderMarker
pub mod TrailingWhitespace
