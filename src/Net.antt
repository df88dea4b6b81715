-- ===== src/Net.antt =====
-- source/rs-io/net.hpp and net.cpp: the hash of a block of memory, its hexadecimal text and the comparison
-- of two blocks; addresses, name queries, and sockets.
pub mod Hashing
pub mod Hex
pub mod Order
pub mod Address
pub mod Ip
pub mod Dns
pub mod Sockets
