-- ===== src/Net/Sockets/Connect.antt =====
-- The constructors of Socket, TcpClient, TcpServer and UdpClient of net.cpp, and TcpServer::read. The calls
-- on sockets are a parameter.
pub mod Owned
use rs_io.Base.{Bool, Option, false, if◌then◌else◌, none, not, some, true, ℕ}
use rs_io.Net.Address.{SocketAddress, to_bool}

-- The calls: the state that they leave, and, where they fail, errno. A socket is `none` where it is -1.
-- `control` is the call of ioctl or setsockopt in control_blocking and control_nagle; `readable` tells
-- whether do_select gives 1, or the exception that it throws.
pub record NetCalls (W : Type 0) : Type 0 where
  pub socket : W → ℕ → W × Option ℕ × ℕ
  pub bind : W → ℕ → SocketAddress → W × Option ℕ
  pub connect : W → ℕ → SocketAddress → W × Option ℕ
  pub listen : W → ℕ → ℕ → W × Option ℕ
  pub reuse_address : W → ℕ → W
  pub set_fionbio : W → ℕ → Bool → W × Option ℕ
  pub set_nodelay : W → ℕ → Bool → W × Option ℕ
  pub accept : W → ℕ → W × Option ℕ × ℕ
  pub readable : W → ℕ → W × Bool × Option ℕ
  pub close_socket : W → ℕ → W

-- What a constructor comes to: its socket, or the number in the system_error that it throws.
pub data Made : Type 0 where
  made : ℕ → Made
  system_error : ℕ → Made

-- SOCK_STREAM, SOCK_DGRAM and the backlog of TcpServer
abbrev pub sock_stream : ℕ
sock_stream = 1

abbrev pub sock_dgram : ℕ
sock_dgram = 2

abbrev pub backlog : ℕ
backlog = 10

module _ {W : Type 0} (N : NetCalls W) where
  -- What follows a call, if that does not throw.
  infixl 5 ◌then_call◌
  unfoldable pub ◌then_call◌ : W × Option ℕ → (W → W × Option ℕ) → W × Option ℕ
  (w, none) then_call k = k w
  (w, some e) then_call k = (w, some e)

  unfoldable pub control_blocking : W → ℕ → Bool → W × Option ℕ
  control_blocking w s flag = N.set_fionbio w s (not flag)

  unfoldable pub control_nagle : W → ℕ → Bool → W × Option ℕ
  control_nagle w s flag = N.set_nodelay w s (not flag)

  -- `do_close()`
  unfoldable pub do_close : W → Option ℕ → W × Option ℕ
  do_close w none = (w, none)
  do_close w (some s) = (N.close_socket w s, none)

  -- `Socket(domain, type, protocol)` and then the rest of a constructor, whose exception destroys the
  -- base class or the member that has the socket.
  abbrev or_close : ℕ → W × Option ℕ → W × Made
  or_close s (w, none) = (w, made s)
  or_close s (w, some e) = ((do_close w (some s)).0, system_error e)

  abbrev pub with_socket : W × Option ℕ × ℕ → (W → ℕ → W × Option ℕ) → W × Made
  with_socket (w, none, e) rest = (w, system_error e)
  with_socket (w, some s, e) rest = or_close s (rest w s)

  unfoldable pub bind_if : W → ℕ → SocketAddress → W × Option ℕ
  bind_if w s local = if to_bool local then N.bind w s local else (w, none)

  unfoldable pub connect_if : W → ℕ → SocketAddress → W × Option ℕ
  connect_if w s remote = if to_bool remote then N.connect w s remote else (w, none)

  -- `TcpClient(remote, local)`
  unfoldable pub tcp_client : W → SocketAddress → SocketAddress → W × Made
  unfolding bind_if control_blocking control_nagle do_close
  tcp_client w remote local = with_socket (N.socket w sock_stream) (λ v s.
      bind_if v s local then_call λ v. N.connect v s remote then_call λ v.
      control_blocking v s false then_call λ v. control_nagle v s false)

  -- `TcpServer(local)`
  unfoldable pub tcp_server : W → SocketAddress → W × Made
  unfolding bind_if control_blocking do_close
  tcp_server w local = with_socket (N.socket w sock_stream) (λ v s.
      bind_if (N.reuse_address v s) s local then_call λ v.
      control_blocking v s false then_call λ v. N.listen v s backlog)

  -- `UdpClient(remote, local)`
  unfoldable pub udp_client : W → SocketAddress → SocketAddress → W × Made
  unfolding bind_if connect_if control_blocking do_close
  udp_client w remote local = with_socket (N.socket w sock_dgram) (λ v s.
      bind_if v s local then_call λ v.
      connect_if v s remote then_call λ v. control_blocking v s false)

  -- `t = std::make_unique<TcpClient>(rc.res)` destroys the client that `t` had.
  abbrev drop_client : W → Option ℕ → W
  drop_client w t = (do_close w t).0

  -- The result of `read`: the client that `t` has then, and the value, or an exception.
  pub data Accepted : Type 0 where
    answers : Bool → Accepted
    throws : ℕ → Accepted

  abbrev controlled : ℕ → W × Option ℕ → W × Option ℕ × Accepted
  controlled s (w, none) = (w, some s, answers true)
  controlled s (w, some e) = (w, some s, throws e)

  abbrev accepted : Option ℕ → W × Option ℕ × ℕ → W × Option ℕ × Accepted
  accepted t (w, none, e) = (w, t, throws e)
  accepted t (w, some s, e) =
      controlled s
        (control_blocking (drop_client w t) s false then_call λ v. control_nagle v s false)

  abbrev when_readable : ℕ → Option ℕ → W × Bool × Option ℕ → W × Option ℕ × Accepted
  when_readable server t (w, b, some e) = (w, t, throws e)
  when_readable server t (w, false, none) = (w, t, answers false)
  when_readable server t (w, true, none) = accepted t (N.accept w server)

  -- `TcpServer::read(t)`
  unfoldable pub server_read : W → Option ℕ → Option ℕ → W × Option ℕ × Accepted
  unfolding control_blocking control_nagle do_close
  server_read w none t = (w, t, answers false)
  server_read w (some server) t = when_readable server t (N.readable w server)
