-- ===== src/Analysis.antt =====
-- tools/src/file_format/analysis.rs: locations, ranges and the merge of source records.
pub mod Locations
pub mod Source
pub mod Merge
pub mod Maps
pub mod Expansions
pub mod Levels
pub mod LevelLoop
pub mod Symbols
mod RoundTrips
mod Union
mod Tests
