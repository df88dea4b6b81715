-- ===== src/Net/Sockets.antt =====
-- SocketSet and the transfers of Socket in net.cpp and net.hpp.
pub mod Sets
pub mod Transfer
pub mod Connect
pub mod Names
