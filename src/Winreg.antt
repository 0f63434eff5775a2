-- ===== src/Winreg.antt =====
-- FFOS/winreg.h: opening, reading, writing and listing the keys and values of the Windows registry.
pub mod Open
pub mod Value
pub mod Stored
pub mod Enum
pub mod Examples
