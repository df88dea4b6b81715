-- ===== src/Tests/Handles.antt =====
-- The theorems on descriptors and sockets with calls that give out new numbers.
use rs_io.Base.{
  ==_iff, Bool, Bool-cases, List, [], ap, arith, false, if◌then◌else◌, inl, inr, is_nil, ltb, none,
  not, refl, some, sym, true, ℕ, ◌&&◌, ◌+◌, ◌==◌, ◌||◌, ◌∙◌, ◌∷◌, ◌≡◌, ◌≤◌,
}
use rs_io.Time.{pos}
use rs_io.Stdio.Descriptors.{Calls, o_rdwr}
use rs_io.Stdio.Descriptors.Program.{
  Call, Posix, Program, hit, moves, opens, releases, dups, writes, closes, destroys, makes_pipe,
}
use rs_io.Net.Address.{null_address}
use rs_io.Net.Sockets.Connect.{NetCalls, tcp_client, tcp_server, udp_client}
use rs_io.Net.Sockets.Connect.Owned as SocketCalls
use rs_io.Net.Sockets.Connect.Owned.{Owns, constructors-Owns}

-- The next number, and which of those below it are open.
abbrev Table : Type 0
Table = ℕ × (ℕ → Bool)

abbrev opened : Table → ℕ → ℕ
opened (n, o) d = if ltb d n && o d then 1 else 0

abbrev allot : Table → Table
allot (n, o) = (n + 1, λ d. d == n || o d)

abbrev release : Table → ℕ → Table
release (n, o) v = (n, λ d. not (d == v) && o d)

allot-opened : (w : Table) (d : ℕ) → opened (allot w) d ≡ hit w.0 d + opened w d
allot-opened (n, o) d = ground arith

release-opened :
    (w : Table) (v : ℕ) → opened w v ≡ 1 → (d : ℕ) → hit v d + opened (release w v) d ≡ opened w d
release-opened (n, o) v h d = elim (Bool-cases (v == d)) [
  | inl it ↦
      let e : v ≡ d = (==_iff v d).0 it in
      let one : opened (n, o) d ≡ 1 = ap (opened (n, o)) (sym e) ∙ h in
      let back : d == v ≡ true = (==_iff d v).1 (sym e) in rw (back, it, one) (ground arith)
  | inr other ↦ ground arith
]

opened-once : (w : Table) (d : ℕ) → opened w d ≤ 1
opened-once (n, o) d = ground arith

abbrev posix_calls : Calls Table
posix_calls = record {
  open_ = λ w f flags perm. (allot w, some w.0, if is_nil f then 25 else 0);
  close = λ w v. (release w v, 0);
  fsync = λ w fd. (w, 0);
  read = λ w fd n. (w, [], 0);
  lseek = λ w fd o which. (w, pos 0, 0);
  write = λ w fd s. (w, 0, 28);
  dup = λ w fd. (allot w, some w.0, 0);
  dup2 = λ w fd v. (w, none, 9);
  pipe = λ w. (allot (allot w), false, some w.0, some (w.0 + 1), 0);
}

-- A pipe, a file and its duplicate, of which two are closed, one of them by its destructor, a file whose
-- descriptor is lost, a move and a release.
abbrev file_calls : List Call
file_calls =
    makes_pipe
    ∷ opens (b'f' ∷ []) (o_rdwr ∷ []) 438
    ∷ dups 0
    ∷ writes 0 (b'x' ∷ [])
    ∷ closes 1
    ∷ destroys 3
    ∷ opens [] (o_rdwr ∷ []) 438
    ∷ moves 0 1
    ∷ releases 1
    ∷ []

abbrev fresh : Table
fresh = (3, λ d. false)

abbrev program : Program Table
program = record { world = fresh; objects = []; given = []; lost = [] }

abbrev net_calls : NetCalls Table
net_calls = record {
  socket = λ w kind. (allot w, some w.0, 0);
  bind = λ w s a. (w, none);
  connect = λ w s a. (w, some 111);
  listen = λ w s n. (w, none);
  reuse_address = λ w s. w;
  set_fionbio = λ w s b. (w, none);
  set_nodelay = λ w s b. (w, none);
  accept = λ w s. (allot w, some w.0, 0);
  readable = λ w s. (w, true, none);
  close_socket = release;
}

net_calls-Posix : SocketCalls.Posix net_calls opened
net_calls-Posix = record {
  at_most_once = opened-once;
  socket_new = λ w kind d. allot-opened w d;
  accept_new = λ w s d. allot-opened w d;
  close_releases = release-opened;
  bind_same = λ w s a d. refl;
  connect_same = λ w s a d. refl;
  listen_same = λ w s n d. refl;
  reuse_same = λ w s d. refl;
  blocking_same = λ w s b d. refl;
  nodelay_same = λ w s b d. refl;
  readable_same = λ w s d. refl;
}

-- The connection of a TcpClient is refused.
constructors-Owns_example :
    Owns opened fresh (tcp_client net_calls fresh null_address null_address)
    × Owns opened fresh (tcp_server net_calls fresh null_address)
    × Owns opened fresh (udp_client net_calls fresh null_address null_address)
constructors-Owns_example =
    constructors-Owns net_calls opened net_calls-Posix fresh null_address null_address
