-- ===== src/Mangle.antt =====
-- tools/src/file_format/analysis_manglings.rs: names of files and segments of pretty names.
-- Files has `mangle_file`, Pretty `split_pretty`; Decode and Segments prove their round trips.
pub mod Files
pub mod Pretty
pub mod Decode
pub mod Segments
mod Tests
