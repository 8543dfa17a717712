-- ===== src/Futures/Tcp/Connects.antt =====
-- About `TcpStream::connect` of src/futures/tcp.rs: the sockets that it opens and closes.
use trale.Prelude.{
  ℕ, ◌≡◌, refl, Option, none, some, List, [], ◌∷◌, Outcome, ret, ◌>>=◌, OnRet, OnRet-bind,
  OnRet-all, ℤ, sym, subst,
}
use trale.Slab.{SlabApi}
use trale.RingBuffer.{BufferApi}
use trale.Uring.{UringApi, Opcode}
use trale.Libc.{LibcApi, World}
use trale.Reactor.Ring.Defs.{ReactorInner}
use trale.Reactor.Io.Value.{
  IoResult, IoError, okay, fail, Poll, pending, ready, map_poll, map_result,
}
use trale.Reactor.Io.Oneshot
use trale.Futures.SockAddr.{SocketAddr, from}
use trale.Futures.Tcp.Defs.{
  TcpStream, SockConnect, Connect, unstarted, connecting, returned, mk_sock, connect_from,
  connect_made, poll_connect, poll_sock, awaited, Polled,
}
use trale.Futures.Tcp.Sockets.{Opens, close-Opens, mk_sock-Opens, of_sock}

-- The socket that a connection attempt owns.
abbrev pub of_connect : Connect → Option ℤ
of_connect (unstarted addrs) = none
of_connect (connecting c rest) = some c.fd
of_connect returned = none

-- The socket that is open after a poll: the result's, or that of the attempt that goes on.
abbrev pub of_polled : Poll (IoResult TcpStream) → Connect → Option ℤ
of_polled pending c = of_connect c
of_polled (ready (okay s)) c = some s.inner
of_polled (ready (fail e)) c = none

module _ ⦃S : SlabApi⦄ ⦃B : BufferApi⦄ ⦃U : UringApi⦄ ⦃L : LibcApi⦄ {T : Type 0} where
  abbrev pub Connects : World → Polled T → Type 0
  Connects w0 o = OnRet (λ x. Opens w0 (of_polled x.0 x.1) x.3) o

  -- Polling the operation keeps the socket.
  poll_sock-fd :
      (waker : T) (ptr : ℕ) (c : SockConnect) (r : ReactorInner T)
      → OnRet (λ x. x.1.fd ≡ c.fd) (poll_sock waker ptr c r)
  unfolding poll_sock
  poll_sock-fd waker ptr c r =
      let m : Outcome (Poll (IoResult ℤ) × Oneshot.IoState × ReactorInner T) =
        Oneshot.submit_or_get_result c.io
          (λ _. (U.build (Opcode.connect c.fd ptr (from c.addr).len), waker)) r in
      OnRet-bind (λ _. Unit {0}) (λ x. x.1.fd ≡ c.fd) m
        (λ a. ret (map_poll (map_result (λ _. tt)) a.0, record c { io = a.1 }, a.2))
        (OnRet-all (λ _. Unit {0}) m (λ _. tt)) (λ a q. refl)

  module _ (waker : T) (ptr : ℕ) (next : IoError → ReactorInner T → World → Polled T) (w0 : World)
      (k : (e : IoError) (q : ReactorInner T) (u : World)
        → Opens w0 none u
        → Connects w0 (next e q u)) where
    awaited-Connects :
        (rest : List SocketAddr) (w : World)
        → (x : Poll (IoResult (Unit {0})) × SockConnect × ReactorInner T) → Opens w0 (some x.1.fd) w
        → Connects w0 (awaited waker ptr next rest w x)
    awaited-Connects rest w (pending, c, r) h = h
    awaited-Connects rest w (ready (okay v), c, r) h = h
    awaited-Connects rest w (ready (fail e), c, r) h = k e r _ (close-Opens w0 w c.fd h)

    poll_sock-Connects :
        (rest : List SocketAddr) (c : SockConnect) (r : ReactorInner T) (w : World)
        → Opens w0 (some c.fd) w
        → Connects w0 (poll_sock waker ptr c r >>= awaited waker ptr next rest w)
    poll_sock-Connects rest c r w h =
        OnRet-bind (λ x. x.1.fd ≡ c.fd) _ _ _ (poll_sock-fd waker ptr c r)
          (λ x e. awaited-Connects rest w x (subst (λ fd. Opens w0 (some fd) w) (sym e) h))

    connect_made-Connects :
        (a : SocketAddr) (rest : List SocketAddr) (r : ReactorInner T) (made : IoResult ℤ × World)
        → Opens w0 (of_sock made.0) made.1
        → Connects w0 (connect_made waker ptr next a rest r made)
    connect_made-Connects a rest r (fail e, w) h = h
    connect_made-Connects a rest r (okay sock, w) h =
        poll_sock-Connects rest (record { fd = sock; io = Oneshot.IoState.fresh; addr = a }) r w h

  connect_from-Connects :
      (waker : T) (ptr : ℕ) (addrs : List SocketAddr) (e : IoError) (r : ReactorInner T)
      (w0 w : World)
      → Opens w0 none w
      → Connects w0 (connect_from waker ptr addrs e r w)
  unfolding connect_from
  connect_from-Connects waker ptr [] e r w0 w h = h
  connect_from-Connects waker ptr (a ∷ rest) e r w0 w h =
      connect_made-Connects waker ptr (λ e' q u. connect_from waker ptr rest e' q u) w0
        (λ e' q u. connect_from-Connects waker ptr rest e' q w0 u) a rest r (mk_sock a w)
        (mk_sock-Opens w0 w a h)

  -- If the only descriptor that a connection attempt has opened is the socket that it waits on,
  -- then after a poll that does not panic the only one is that of the stream that it returned, or
  -- the socket that it waits on now, and there is none if it returned an error.
  pub poll_connect-Opens :
      (waker : T) (ptr : ℕ) (c : Connect) (r : ReactorInner T) (w0 w : World)
      → Opens w0 (of_connect c) w
      → Connects w0 (poll_connect waker ptr c r w)
  unfolding poll_connect
  poll_connect-Opens waker ptr (unstarted (fail e)) r w0 w h = h
  poll_connect-Opens waker ptr (unstarted (okay addrs)) r w0 w h =
      connect_from-Connects waker ptr addrs _ r w0 w h
  poll_connect-Opens waker ptr (connecting c rest) r w0 w h =
      poll_sock-Connects waker ptr (λ e q u. connect_from waker ptr rest e q u) w0
        (λ e q u. connect_from-Connects waker ptr rest e q w0 u) rest c r w h
  poll_connect-Opens waker ptr returned r w0 w h = tt
