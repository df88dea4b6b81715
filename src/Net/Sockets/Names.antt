-- ===== src/Net/Sockets/Names.antt =====
-- The addresses at the two ends of a Socket of net.cpp. getsockname and getpeername give the memory that they
-- write and its length, or a system error.
use rs_io.Base.{Option, none, some, ℕ}
use rs_io.Text.{Text}
use rs_io.Net.Address.{SocketAddress, Result, ok, ◌then_do◌, null_address, set_size}

-- The end of `local` and `remote`: `set_size` of the length that the call wrote.
abbrev sized : Text × ℕ → Result SocketAddress
sized (memory, len) = set_size len (record null_address { sa = memory })

unfoldable pub local : (ℕ → Result (Text × ℕ)) → Option ℕ → Result SocketAddress
unfolding set_size null_address
local getsockname none = ok null_address
local getsockname (some s) = getsockname s then_do sized

unfoldable pub remote : (ℕ → Result (Text × ℕ)) → Option ℕ → Result SocketAddress
unfolding set_size null_address
remote getpeername none = ok null_address
remote getpeername (some s) = getpeername s then_do sized
