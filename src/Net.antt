-- ===== src/Net.antt =====
-- include/etlx/net/net.hpp and ports/host/host_tcp.cpp: `PosixTcpSocket` over the calls of the
-- operating system, which are the record `Kernel`. Net.Tls is the TLS wrapper of a transport.
pub mod Sends
pub mod Connects
pub mod Tls
mod Tests
use cpp_template.Base.{
  ℕ, zero, suc, ◌+◌, Bool, true, false, Option, none, some, List, [], ◌∷◌, Bytes, codes, length,
  take, drop, ltb,
}
use cpp_template.Core.{Category, Result, ok, fail, Status}

-- `enum Code`
abbrev pub resolve_failed : ℕ
resolve_failed = 1

abbrev pub connect_failed : ℕ
connect_failed = 2

abbrev pub send_failed : ℕ
send_failed = 3

abbrev pub recv_failed : ℕ
recv_failed = 4

abbrev pub tls_error : ℕ
tls_error = 6

-- What `send` and `recv` answer: a count or the bytes, or -1 with `EINTR`, or with another error,
-- whose text `strerror` gives.
pub data SendAnswer : Type 0 where
  wrote : ℕ → SendAnswer
  send_interrupted : SendAnswer
  send_refused : Bytes → SendAnswer

pub data RecvAnswer : Type 0 where
  got : Bytes → RecvAnswer
  recv_interrupted : RecvAnswer
  recv_refused : Bytes → RecvAnswer

-- The calls of the operating system.
pub record Kernel : Type 1 where
  pub System : Type 0
  pub Address : Type 0
  pub getaddrinfo : System → Bytes → ℕ → Option (List Address) × System
  pub socket : System → Address → Option ℕ × System
  pub connect : System → ℕ → Address → Bool × System
  pub send : System → ℕ → Bytes → SendAnswer × System
  pub recv : System → ℕ → ℕ → RecvAnswer × System
  pub close_fd : System → ℕ → System

module _ (kernel : Kernel) where
  open kernel use {System, Address, getaddrinfo, socket, connect, send, recv, close_fd}

  -- `PosixTcpSocket` is its descriptor; `none` is -1.
  abbrev pub Descriptor : Type 0
  Descriptor = Option ℕ

  -- `Close`
  unfoldable pub tcp_close : Descriptor → System → Descriptor × System
  tcp_close none s = (none, s)
  tcp_close (some fd) s = (none, close_fd s fd)

  abbrev pub after_connect :
      (System → Descriptor × System) → ℕ → Bool × System → Descriptor × System
  after_connect rest fd (true, s) = (some fd, s)
  after_connect rest fd (false, s) = rest (close_fd s fd)

  abbrev pub after_socket :
      (System → Descriptor × System) → Address → Option ℕ × System → Descriptor × System
  after_socket rest a (none, s) = rest s
  after_socket rest a (some fd, s) = after_connect rest fd (connect s fd a)

  -- The loop of `Connect` over the addresses.
  unfoldable pub try_all : List Address → System → Descriptor × System
  try_all [] s = (none, s)
  try_all (a ∷ rest) s = after_socket (try_all rest) a (socket s a)

  abbrev pub connected : Descriptor × System → Status × Descriptor × System
  connected (none, s) = (fail Category.net connect_failed (codes "connect failed"), none, s)
  connected (some fd, s) = (ok tt, some fd, s)

  abbrev pub resolved : Option (List Address) × System → Status × Descriptor × System
  resolved (none, s) = (fail Category.net resolve_failed (codes "getaddrinfo failed"), none, s)
  resolved (some [], s) = (fail Category.net resolve_failed (codes "getaddrinfo failed"), none, s)
  resolved (some (a ∷ rest), s) = connected (try_all (a ∷ rest) s)

  -- `Connect`
  unfoldable pub tcp_connect : Bytes → ℕ → Descriptor → System → Status × Descriptor × System
  tcp_connect host port fd s = resolved (getaddrinfo (tcp_close fd s).1 (take 256 host) port)

  abbrev pub after_send :
      (ℕ → System → Option (Status × System)) → ℕ → SendAnswer × System → Option (Status × System)
  after_send loop sent (wrote n, s) = loop (sent + n) s
  after_send loop sent (send_interrupted, s) = loop sent s
  after_send loop sent (send_refused text, s) = some (fail Category.net send_failed text, s)

  abbrev pub while_unsent : Bool → Option (Status × System) → System → Option (Status × System)
  while_unsent true round s = round
  while_unsent false round s = some (ok tt, s)

  -- The loop of `Send`, on fuel.
  unfoldable pub send_loop : ℕ → ℕ → Bytes → ℕ → System → Option (Status × System)
  send_loop zero fd src sent s = none
  send_loop (suc f) fd src sent s =
      while_unsent (ltb sent (length src))
        (after_send (send_loop f fd src) sent (send s fd (drop sent src))) s

  -- `Send`
  unfoldable pub tcp_send : ℕ → ℕ → Bytes → System → Option (Status × System)
  tcp_send f fd src s = send_loop f fd src 0 s

  abbrev pub after_recv :
      (System → Option (Result Bytes × System))
      → RecvAnswer × System
      → Option (Result Bytes × System)
  after_recv loop (got bytes, s) = some (ok bytes, s)
  after_recv loop (recv_interrupted, s) = loop s
  after_recv loop (recv_refused text, s) = some (fail Category.net recv_failed text, s)

  -- `Recv` into a view of `size` bytes, on fuel: the bytes in front of it.
  unfoldable pub tcp_recv : ℕ → ℕ → ℕ → System → Option (Result Bytes × System)
  tcp_recv zero fd size s = none
  tcp_recv (suc f) fd size s = after_recv (tcp_recv f fd size) (recv s fd size)
