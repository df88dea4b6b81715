-- ===== src/Uri.antt =====
-- source/rs-io/uri.hpp and uri.cpp.
pub mod Defs
pub mod Encode
pub mod Changes
pub mod Edit
pub mod Parts
pub mod Segments
pub mod Presence
pub mod Spec
pub mod Clears
pub mod Refine
pub mod Preserve
pub mod Access
pub mod Related
pub mod Parse
pub mod ReadBack
pub mod Cuts
pub mod Halves
pub mod Assemble
pub mod Query
