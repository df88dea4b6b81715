-- ===== src/Stdio.antt =====
-- source/rs-io/stdio.hpp and stdio.cpp.
pub mod Device
pub mod Streams
pub mod Lines
pub mod Writes
pub mod Cfile
pub mod Descriptors
pub mod Temp
pub mod Modes
pub mod Opening
