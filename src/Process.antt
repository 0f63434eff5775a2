-- ===== src/Process.antt =====
-- FFOS/process.h: starting a process, its command line, waiting for it, and the name of its file.
pub mod CmdLine
pub mod Quote
pub mod Made
pub mod Child
pub mod Wait
pub mod Filename
pub mod Inherit
pub mod Examples
