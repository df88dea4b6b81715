-- ===== src/FilePath.antt =====
-- source/rs-io/path.hpp and path.cpp, as they are compiled on Posix systems.
pub mod Canonical
pub mod Names
pub mod Common
pub mod Compare
pub mod Search
pub mod Listing
pub mod Files
pub mod Resolve
