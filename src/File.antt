-- ===== src/File.antt =====
-- FFOS/file.h: opening, removing, renaming and truncating files, reading and writing at an offset.
pub mod Open
pub mod Disposition
pub mod Change
pub mod Position
pub mod Unix
pub mod Whole
pub mod Written
pub mod Kept
pub mod WholeExamples
pub mod Examples
