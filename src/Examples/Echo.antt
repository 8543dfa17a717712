-- ===== src/Examples/Echo.antt =====
-- The echo tasks of examples/tcp_serv.rs and examples/tcp.rs: the connection is made, and then every
-- byte is sent back. The context that an error is given and the printing are left out.
pub mod Echoing
use trale.Prelude.{ℕ, zero, suc, Option, none, some, List, [], ◌∷◌, ret, panic, Panic, ◌>>=◌}
use trale.Libc.{LibcApi, World}
use trale.Reactor.Io.Value.{IoResult, okay, fail}
use trale.Futures.Tcp.Defs.{TcpStream, TcpListener, bind}
use trale.Futures.SockAddr.{SocketAddr}
use trale.Examples.WebServer.Api.{WebApi}
use trale.Examples.WebServer.Request.{Served}
use trale.Examples.WebServer.Server.{then_ok, filled}

module _ ⦃L : LibcApi⦄ ⦃W : WebApi⦄ where
  -- one round, after its read; `rest` is the loop with one more byte counted
  abbrev pub echo_read : TcpStream → ℕ → (World → Served ℕ) → List ℕ → World → Served ℕ
  echo_read conn bytes_read rest [] w = ret (some (okay bytes_read, w))
  echo_read conn bytes_read rest (b ∷ bs) w =
      then_ok (W.write conn (filled 1 (b ∷ bs)) w) (λ n u. rest u)

  unfoldable pub echo : ℕ → TcpStream → ℕ → World → Served ℕ
  echo zero conn bytes_read w = ret none
  echo (suc n) conn bytes_read w =
      then_ok (W.receive conn 1 w) (echo_read conn bytes_read (λ u. echo n conn (suc bytes_read) u))

  -- the end of the task, where the connection goes out of scope
  unfoldable pub ended : TcpStream → Option (IoResult ℕ × World) → Served ℕ
  ended conn none = ret none
  ended conn (some (r, w)) = ret (some (r, L.close conn.inner w))

  -- the task of tcp_serv.rs after the await of `next`: the listener is dropped on every path
  abbrev pub accepted : ℕ → TcpListener → Option (IoResult TcpStream) × World → Served ℕ
  accepted n listener (none, w) = panic Panic.unwrap_failed
  accepted n listener (some (fail e), w) = do u ← W.drop_listener listener w; ret (some (fail e, u))
  accepted n listener (some (okay conn), w) = do
    u ← W.drop_listener listener w
    o ← echo n conn 0 u
    ended conn o

  -- the echo task of tcp_serv.rs, on what its address resolves to
  unfoldable pub serve : ℕ → IoResult (List SocketAddr) → World → Served ℕ
  unfolding echo ended bind
  serve n addrs w = do
    made ← bind addrs w
    then_ok made (λ listener u. accepted n listener (W.accept listener u))

  -- the echo task of tcp.rs
  unfoldable pub converse : ℕ → IoResult (List SocketAddr) → World → Served ℕ
  unfolding echo ended
  converse n addrs w = then_ok (W.connect addrs w) λ conn u. do o ← echo n conn 0 u; ended conn o
