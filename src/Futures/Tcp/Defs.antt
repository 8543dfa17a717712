-- ===== src/Futures/Tcp/Defs.antt =====
-- `TcpListener`, `TcpStream` and `SockConnect` of src/futures/tcp.rs. A socket that goes out of scope
-- is closed; `connect` is an `async` function, written as the states between its polls.
use trale.Prelude.{
  ℕ, false, Option, List, [], ◌∷◌, if◌then◌else◌, Outcome, ret, ◌>>=◌, panic, Panic, ℤ, pos,
  is_minus_one, same_fd,
}
use mathlib.Core.Option
use trale.Slab.{SlabApi}
use trale.RingBuffer.{BufferApi}
use trale.Uring.{UringApi, Buf, Opcode}
use trale.Libc.{LibcApi, World, af_inet, af_inet6}
use trale.Reactor.Ring.Defs.{ReactorInner}
use trale.Reactor.Io.Value.{
  IoResult, IoError, okay, fail, os_error, of_kind, ErrorKind, Poll, pending, ready, map_poll,
  map_result,
}
use trale.Reactor.Io.Oneshot
use trale.Reactor.Io.Multishot
use trale.Futures.SockAddr.{SocketAddr, is_ipv4, from}
use trale.Futures.Transfer.{AsyncReader, AsyncWriter}

pub record TcpListener : Type 0 where
  pub inner : ℤ
  pub io : Multishot.IoState

pub record TcpStream : Type 0 where
  pub inner : ℤ

-- `AsyncRead` and `AsyncWrite` for `TcpStream`
unfoldable pub read : TcpStream → Buf → AsyncReader
unfolding Oneshot.new
read this buf = record { fd = this.inner; io = Oneshot.new; buf = buf; seekable = false }

unfoldable pub write : TcpStream → Buf → AsyncWriter
unfolding Oneshot.new
write this buf = record { fd = this.inner; io = Oneshot.new; buf = buf; seekable = false }

pub record SockConnect : Type 0 where
  pub fd : ℤ
  pub io : Oneshot.IoState
  pub addr : SocketAddr

-- Between the polls of `connect`: not yet polled, in the `await` with the addresses that are left,
-- and over.
pub data Connect : Type 0 where
  unstarted : IoResult (List SocketAddr) → Connect
  connecting : SockConnect → List SocketAddr → Connect
  returned : Connect

-- what `poll_next` makes of the descriptor
abbrev pub stream_of : ℤ → TcpStream
stream_of fd = record { inner = fd }

module _ ⦃L : LibcApi⦄ where
  unfoldable pub mk_sock : SocketAddr → World → IoResult ℤ × World
  mk_sock addr w =
      let (sock, w') = L.socket (if is_ipv4 addr then af_inet else af_inet6) w in
      (if is_minus_one sock then fail (os_error (L.errno w')) else okay sock, w')

  -- the match on `listen`; `next` goes on with the next address
  unfoldable pub listen_on :
      (IoError → World → Outcome (IoResult TcpListener × World))
      → ℤ
      → World
      → Outcome (IoResult TcpListener × World)
  unfolding Multishot.new
  listen_on next sock w =
      let (res, w') = L.listen sock 1024 w in
      if is_minus_one res
      then next (os_error (L.errno w')) (L.close sock w')
      else if same_fd res (pos 0)
      then ret (okay (record { inner = sock; io = Multishot.new }), w')
      else panic Panic.unreachable

  -- the body of `bind`'s loop, with a socket
  unfoldable pub bind_to :
      (IoError → World → Outcome (IoResult TcpListener × World))
      → SocketAddr
      → ℤ
      → World
      → Outcome (IoResult TcpListener × World)
  unfolding listen_on from
  bind_to next addr sock w =
      let caddr = from addr in
      let (res, w') = L.bind sock caddr.addr caddr.len w in
      if is_minus_one res
      then next (os_error (L.errno w')) (L.close sock w')
      else listen_on next sock w'

  abbrev pub bind_made :
      (IoError → World → Outcome (IoResult TcpListener × World))
      → SocketAddr
      → IoResult ℤ × World
      → Outcome (IoResult TcpListener × World)
  bind_made next addr (okay sock, w) = bind_to next addr sock w
  bind_made next addr (fail e, w) = ret (fail e, w)

  -- the loop of `bind`
  unfoldable pub bind_from :
      List SocketAddr → IoError → World → Outcome (IoResult TcpListener × World)
  unfolding bind_to mk_sock
  bind_from [] last_err w = ret (fail last_err, w)
  bind_from (addr ∷ addrs) last_err w = bind_made (λ e u. bind_from addrs e u) addr (mk_sock addr w)

  -- `TcpListener::bind`, on what `to_socket_addrs` has returned
  unfoldable pub bind : IoResult (List SocketAddr) → World → Outcome (IoResult TcpListener × World)
  unfolding bind_from
  bind (fail e) w = ret (fail e, w)
  bind (okay addrs) w = bind_from addrs (of_kind ErrorKind.not_found) w

module _ ⦃S : SlabApi⦄ ⦃B : BufferApi⦄ ⦃U : UringApi⦄ ⦃L : LibcApi⦄ where
  abbrev pub Polled : Type 0 → Type 0
  Polled T = Outcome (Poll (IoResult TcpStream) × Connect × ReactorInner T × World)

module _ ⦃S : SlabApi⦄ ⦃B : BufferApi⦄ ⦃U : UringApi⦄ {T : Type 0} where
  -- `Stream::poll_next` of `TcpListener`
  unfoldable pub poll_next :
      TcpListener
      → T
      → ReactorInner T
      → Outcome (Poll (Option (IoResult TcpStream)) × TcpListener × ReactorInner T)
  poll_next this waker r = do
    (p, io, r') ←
        Multishot.submit_or_get_result this.io
          (λ _. (U.build (Opcode.accept_multi this.inner), waker)) r
    ret (map_poll (Option.map (map_result stream_of)) p, record this { io = io }, r')

  module _ ⦃L : LibcApi⦄ (waker : T) (ptr : ℕ) where
    -- `SockConnect::poll`, whose C address is a local at `ptr`
    unfoldable pub poll_sock :
        SockConnect
        → ReactorInner T
        → Outcome (Poll (IoResult (Unit {0})) × SockConnect × ReactorInner T)
    unfolding from
    poll_sock this r = do
      let addr = from this.addr
      (p, io, r') ←
          Oneshot.submit_or_get_result this.io
            (λ _. (U.build (Opcode.connect this.fd ptr addr.len), waker)) r
      ret (map_poll (map_result (λ _. tt)) p, record this { io = io }, r')

    -- the match on `connect.await`; `next` goes on with the next address
    abbrev pub awaited :
        (IoError → ReactorInner T → World → Polled T)
        → List SocketAddr
        → World
        → Poll (IoResult (Unit {0})) × SockConnect × ReactorInner T
        → Polled T
    awaited next rest w (pending, c, r) = ret (pending, connecting c rest, r, w)
    awaited next rest w (ready (okay _), c, r) = ret (ready (okay (stream_of c.fd)), returned, r, w)
    awaited next rest w (ready (fail e), c, r) = next e r (L.close c.fd w)

    abbrev pub connect_made :
        (IoError → ReactorInner T → World → Polled T)
        → SocketAddr
        → List SocketAddr
        → ReactorInner T
        → IoResult ℤ × World
        → Polled T
    connect_made next addr rest r (fail e, w) = ret (ready (fail e), returned, r, w)
    connect_made next addr rest r (okay sock, w) = do
      c ← poll_sock (record { fd = sock; io = Oneshot.IoState.fresh; addr = addr }) r
      awaited next rest w c

    -- the loop of `connect`
    unfoldable pub connect_from : List SocketAddr → IoError → ReactorInner T → World → Polled T
    unfolding mk_sock poll_sock
    connect_from [] last_err r w = ret (ready (fail last_err), returned, r, w)
    connect_from (addr ∷ addrs) last_err r w =
        connect_made (λ e q u. connect_from addrs e q u) addr addrs r (mk_sock addr w)

    -- a poll of `TcpStream::connect`
    unfoldable pub poll_connect : Connect → ReactorInner T → World → Polled T
    unfolding connect_from poll_sock
    poll_connect (unstarted (fail e)) r w = ret (ready (fail e), returned, r, w)
    poll_connect (unstarted (okay addrs)) r w =
        connect_from addrs (of_kind ErrorKind.invalid_data) r w
    poll_connect (connecting c rest) r w = do
      c' ← poll_sock c r
      awaited (λ e q u. connect_from rest e q u) rest w c'
    poll_connect returned r w = panic Panic.resumed
