-- ===== src/Net/Sockets/Connect/Owned.antt =====
-- No socket is lost: what the constructors and TcpServer::read open is owned or closed.
use rs_io.Base.{
  Bool, Bool-cases, Option, arith, false, inl, inr, none, refl, some, true, ℕ, ◌+◌, ◌∙◌, ◌≡◌, ◌≤◌,
}
use rs_io.Stdio.Descriptors.Owned.{hit_refl}
use rs_io.Stdio.Descriptors.Program.{hit, owns}
use rs_io.Net.Address.{SocketAddress, to_bool}
use rs_io.Net.Sockets.Connect.{
  NetCalls, Made, made, system_error, ◌then_call◌, control_blocking, control_nagle, do_close,
  or_close, with_socket, bind_if, connect_if, tcp_client, tcp_server, udp_client, sock_stream,
  sock_dgram, backlog, Accepted, accepted, controlled, drop_client, server_read, when_readable,
}

-- How many times a socket is open: a call leaves that as it was.
abbrev pub Same : {W : Type 0} → (W → ℕ → ℕ) → W → W → Type 0
Same opened w w' = (d : ℕ) → opened w' d ≡ opened w d

-- What POSIX says of the calls.
pub record Posix {W : Type 0} (N : NetCalls W) (opened : W → ℕ → ℕ) : Type 0 where
  pub at_most_once : (w : W) (d : ℕ) → opened w d ≤ 1
  pub socket_new :
      (w : W) (kind d : ℕ) → let (w', s, e) = N.socket w kind in opened w' d ≡ owns s d + opened w d
  pub accept_new :
      (w : W) (server d : ℕ)
      → let (w', s, e) = N.accept w server in opened w' d ≡ owns s d + opened w d
  pub close_releases :
      (w : W) (s : ℕ)
      → opened w s ≡ 1
      → (d : ℕ) → hit s d + opened (N.close_socket w s) d ≡ opened w d
  pub bind_same : (w : W) (s : ℕ) (a : SocketAddress) → Same opened w (N.bind w s a).0
  pub connect_same : (w : W) (s : ℕ) (a : SocketAddress) → Same opened w (N.connect w s a).0
  pub listen_same : (w : W) (s n : ℕ) → Same opened w (N.listen w s n).0
  pub reuse_same : (w : W) (s : ℕ) → Same opened w (N.reuse_address w s)
  pub blocking_same : (w : W) (s : ℕ) (b : Bool) → Same opened w (N.set_fionbio w s b).0
  pub nodelay_same : (w : W) (s : ℕ) (b : Bool) → Same opened w (N.set_nodelay w s b).0
  pub readable_same : (w : W) (s : ℕ) → Same opened w (N.readable w s).0

-- The sockets that a constructor leaves open: its own besides those that were, or, after an exception,
-- just those.
abbrev pub Owns : {W : Type 0} → (W → ℕ → ℕ) → W → W × Made → Type 0
Owns opened w (w', made s) = (d : ℕ) → opened w' d ≡ hit s d + opened w d
Owns opened w (w', system_error e) = Same opened w w'

module _ {W : Type 0} (N : NetCalls W) (opened : W → ℕ → ℕ) (posix : Posix N opened) where
  then-Same :
      (w : W) (r : W × Option ℕ) (k : W → W × Option ℕ)
      → Same opened w r.0
      → ((v : W) → Same opened v (k v).0)
      → Same opened w (◌then_call◌ N r k).0
  unfolding ◌then_call◌
  then-Same w (v, none) k h l = λ d. l v d ∙ h d
  then-Same w (v, some e) k h l = h

  bind_if-Same : (w : W) (s : ℕ) (a : SocketAddress) → Same opened w (bind_if N w s a).0
  unfolding bind_if
  bind_if-Same w s a = elim (Bool-cases (to_bool a)) [
    | inl given ↦ rw given (posix.bind_same w s a)
    | inr missing ↦ rw missing (λ d. refl)
  ]

  connect_if-Same : (w : W) (s : ℕ) (a : SocketAddress) → Same opened w (connect_if N w s a).0
  unfolding connect_if
  connect_if-Same w s a = elim (Bool-cases (to_bool a)) [
    | inl given ↦ rw given (posix.connect_same w s a)
    | inr missing ↦ rw missing (λ d. refl)
  ]

  or_close-Owns :
      (w v : W) (s : ℕ) (r : W × Option ℕ)
      → ((d : ℕ) → opened v d ≡ hit s d + opened w d)
      → Same opened v r.0
      → Owns opened w (or_close N s r)
  unfolding do_close
  or_close-Owns w v s (u, none) h l = λ d. l d ∙ h d
  or_close-Owns w v s (u, some e) h l =
      let one : opened u s ≡ 1 = omega (arith, posix.at_most_once u s, l s, h s, hit_refl s) in
      λ d. omega (arith, posix.close_releases u s one d, l d, h d)

  with_socket-Owns :
      (w : W) (r : W × Option ℕ × ℕ) (rest : W → ℕ → W × Option ℕ)
      → ((d : ℕ) → opened r.0 d ≡ owns r.1 d + opened w d)
      → ((v : W) (s : ℕ) → Same opened v (rest v s).0)
      → Owns opened w (with_socket N r rest)
  with_socket-Owns w (v, none, e) rest h l = λ d. omega (arith, h d)
  with_socket-Owns w (v, some s, e) rest h l = or_close-Owns w v s (rest v s) h (l v s)

  -- Where the calls on sockets do what POSIX says, each constructor of TcpClient, TcpServer and UdpClient
  -- leaves its own socket open besides those that were, or throws with just those open.
  pub constructors-Owns :
      (w : W) (remote local : SocketAddress)
      → Owns opened w (tcp_client N w remote local)
        × Owns opened w (tcp_server N w local)
        × Owns opened w (udp_client N w remote local)
  unfolding tcp_client tcp_server udp_client control_blocking control_nagle
  constructors-Owns w remote local = (
    with_socket-Owns w (N.socket w sock_stream) _ (posix.socket_new w sock_stream) (λ v s.
        then-Same v _ _ (bind_if-Same v s local) (λ v.
          then-Same v _ _ (posix.connect_same v s remote) (λ v.
            then-Same v _ _ (posix.blocking_same v s true) (λ v. posix.nodelay_same v s true)))),
    with_socket-Owns w (N.socket w sock_stream) _ (posix.socket_new w sock_stream) (λ v s.
        then-Same v _ _ (λ d. bind_if-Same (N.reuse_address v s) s local d ∙ posix.reuse_same v s d)
          (λ v.
            then-Same v _ _ (posix.blocking_same v s true) (λ v. posix.listen_same v s backlog))),
    with_socket-Owns w (N.socket w sock_dgram) _ (posix.socket_new w sock_dgram) (λ v s.
        then-Same v _ _ (bind_if-Same v s local)
          (λ v. then-Same v _ _ (connect_if-Same v s remote) (λ v. posix.blocking_same v s true))),
  )

  -- The client that TcpServer::read was given is open.
  abbrev pub IsOpen : W → Option ℕ → Type 0
  IsOpen w none = Unit
  IsOpen w (some c) = opened w c ≡ 1

  -- The clients before and after are all that the sockets which are open differ by.
  abbrev pub Trades : W → Option ℕ → W × Option ℕ × Accepted N → Type 0
  Trades w t (w', t', r) = (d : ℕ) → opened w' d + owns t d ≡ opened w d + owns t' d

  drop_client-owned :
      (w v : W) (s : ℕ) (t : Option ℕ)
      → IsOpen w t
      → ((d : ℕ) → opened v d ≡ hit s d + opened w d)
      → (d : ℕ) → opened (drop_client N v t) d + owns t d ≡ opened w d + hit s d
  unfolding do_close
  drop_client-owned w v s none o h d = omega (arith, h d)
  drop_client-owned w v s (some c) o h d =
      let one : opened v c ≡ 1 = omega (arith, posix.at_most_once v c, h c, o) in
      omega (arith, posix.close_releases v c one d, h d)

  controlled-Trades :
      (w : W) (t : Option ℕ) (s : ℕ) (r : W × Option ℕ)
      → ((d : ℕ) → opened r.0 d + owns t d ≡ opened w d + hit s d)
      → Trades w t (controlled N s r)
  controlled-Trades w t s (u, none) h = h
  controlled-Trades w t s (u, some e) h = h

  accepted-Trades :
      (w : W) (t : Option ℕ) (r : W × Option ℕ × ℕ)
      → IsOpen w t
      → ((d : ℕ) → opened r.0 d ≡ owns r.1 d + opened w d)
      → Trades w t (accepted N t r)
  unfolding control_blocking control_nagle
  accepted-Trades w t (v, none, e) o h = λ d. omega (arith, h d)
  accepted-Trades w t (v, some s, e) o h =
      let u = drop_client N v t in
      let r = ◌then_call◌ N (control_blocking N u s false) (λ v. control_nagle N v s false) in
      let same : Same opened u r.0 =
        then-Same u (control_blocking N u s false) (λ v. control_nagle N v s false)
          (posix.blocking_same u s true) (λ v. posix.nodelay_same v s true) in
      controlled-Trades w t s r (λ d. omega (arith, same d, drop_client-owned w v s t o h d))

  IsOpen-Same : (w v : W) (t : Option ℕ) → Same opened w v → IsOpen w t → IsOpen v t
  IsOpen-Same w v none h o = tt
  IsOpen-Same w v (some c) h o = h c ∙ o

  -- A call of TcpServer::read trades clients: the sockets that are open after it, with the client that it
  -- was given, are those that were open, with the client that it leaves, also where it throws.
  pub server_read-Trades :
      (w : W) (server t : Option ℕ) → IsOpen w t → Trades w t (server_read N w server t)
  unfolding server_read
  server_read-Trades w none t o = λ d. refl
  server_read-Trades w (some server) t o =
      when_readable-Trades (N.readable w server) (posix.readable_same w server)
    where
      when_readable-Trades :
          (r : W × Bool × Option ℕ) → Same opened w r.0 → Trades w t (when_readable N server t r)
      when_readable-Trades (v, b, some e) h = λ d. omega (arith, h d)
      when_readable-Trades (v, false, none) h = λ d. omega (arith, h d)
      when_readable-Trades (v, true, none) h = λ d. omega (
        arith,
        h d,
        accepted-Trades v t (N.accept v server) (IsOpen-Same w v t h o) (posix.accept_new v server)
            d,
      )
