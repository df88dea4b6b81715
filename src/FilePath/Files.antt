-- ===== src/FilePath/Files.antt =====
-- The update functions of path.cpp, over the system calls that they make. A function ends in a state of
-- the system, and in a failure where the source throws.
pub mod System
pub mod Stat
pub mod Update
pub mod Safe
pub mod Parents
pub mod Content
