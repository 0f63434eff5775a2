-- ===== src/Pipe.antt =====
-- FFOS/pipe.h: named pipes on UNIX, and accepting and reading on Windows.
pub mod Unix
pub mod Windows
pub mod Examples
