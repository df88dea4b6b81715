-- ===== src/Channel.antt =====
-- source/rs-io/channel.hpp and channel.cpp.
pub mod Queue
pub mod Dispatch
pub mod Value
pub mod Buffer
pub mod Timer
