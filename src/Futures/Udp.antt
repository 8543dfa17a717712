-- ===== src/Futures/Udp.antt =====
-- src/futures/udp.rs: datagram sockets. The headers that the kernel reads and writes are fields of
-- the futures; what the kernel writes into them between two polls is an argument of `received`.
use trale.Prelude.{ℕ, Option, none, List, head?, Outcome, ret, ◌>>=◌, unwrap, Panic, ℤ, as_usize}
use trale.Slab.{SlabApi}
use trale.RingBuffer.{BufferApi}
use trale.Uring.{UringApi, Buf, Opcode}
use trale.Libc.{LibcApi}
use trale.Reactor.Ring.Defs.{ReactorInner}
use trale.Reactor.Io.Value.{IoResult, okay, fail, Poll, map_poll}
use trale.Reactor.Io.Oneshot
use trale.Futures.SockAddr.{SocketAddr, CSockAddrs, CSockAddr, from, try_from}
use trale.Futures.Transfer.{counted}

-- `StdUdpSocket`, by its descriptor
pub record UdpSocket : Type 0 where
  pub inner : ℤ

-- `msghdr` with its one `iovec`; pointers are numbers
pub record MsgHdr : Type 0 where
  pub msg_name : ℕ
  pub msg_namelen : ℕ
  pub msg_iov : ℕ
  pub msg_iovlen : ℕ

abbrev pub zeroed_hdr : MsgHdr
zeroed_hdr = record { msg_name = 0; msg_namelen = 0; msg_iov = 0; msg_iovlen = 0 }

abbrev pub zeroed_iov : Buf
zeroed_iov = record { ptr = 0; len = 0 }

-- The addresses of the fields `hdr`, `iov` and `csock.addr` of a pinned future.
pub record Layout : Type 0 where
  pub hdr_ptr : ℕ
  pub iov_ptr : ℕ
  pub name_ptr : ℕ

pub record RecvFrom : Type 0 where
  pub sock : ℤ
  pub io : Oneshot.IoState
  pub hdr : MsgHdr
  pub iov : Buf
  pub csock : CSockAddr
  pub buf : Buf

pub record SendTo : Type 0 where
  pub sock : ℤ
  pub dst : IoResult (List SocketAddr)
  pub io : Oneshot.IoState
  pub hdr : MsgHdr
  pub csock : CSockAddr
  pub iov : Buf
  pub buf : Buf

-- `UdpSocket::bind`, on what the standard library's `bind` has returned
unfoldable pub bind : IoResult ℤ → IoResult UdpSocket
bind (okay sock) = okay (record { inner = sock })
bind (fail e) = fail e

-- `recv_from`; `zeroed` is the zeroed address
unfoldable pub recv_from : UdpSocket → Buf → (zeroed : CSockAddr) → RecvFrom
unfolding Oneshot.new
recv_from this buf zeroed = record {
  sock = this.inner;
  io = Oneshot.new;
  hdr = zeroed_hdr;
  iov = zeroed_iov;
  csock = zeroed;
  buf = buf;
}

-- `send_to`; `target` is what `to_socket_addrs` will return
unfoldable pub send_to :
    UdpSocket → Buf → IoResult (List SocketAddr) → (zeroed : CSockAddr) → SendTo
unfolding Oneshot.new
send_to this buf target zeroed = record {
  sock = this.inner;
  dst = target;
  io = Oneshot.new;
  buf = buf;
  hdr = zeroed_hdr;
  csock = zeroed;
  iov = zeroed_iov;
}

-- `size_of` the union of the two address types
abbrev pub csockaddrs_size : ℕ
csockaddrs_size = 28

-- the assignments in the closure of `RecvFrom::poll`
unfoldable pub prepare_recv : Layout → RecvFrom → RecvFrom
prepare_recv at this = record this {
  iov = this.buf;
  hdr = record {
    msg_iov = at.iov_ptr;
    msg_iovlen = 1;
    msg_name = at.name_ptr;
    msg_namelen = csockaddrs_size;
  };
}

-- the kernel's answer: the sender's address and its length
abbrev pub received : CSockAddrs → ℕ → RecvFrom → RecvFrom
received name namelen this = record this {
  hdr = record (this.hdr) { msg_namelen = namelen };
  csock = record (this.csock) { addr = name };
}

abbrev pub first_addr : IoResult (List SocketAddr) → Option SocketAddr
first_addr (okay addrs) = head? addrs
first_addr (fail e) = none

abbrev pub is_fresh : Oneshot.IoState → (A : Type 0) → A → A → A
is_fresh Oneshot.IoState.fresh A x y = x
is_fresh (Oneshot.IoState.submitted i) A x y = y
is_fresh (Oneshot.IoState.finished v) A x y = y

module _ ⦃L : LibcApi⦄ where
  abbrev pub with_size : ℤ → IoResult SocketAddr → IoResult (ℕ × SocketAddr)
  with_size sz (okay addr) = okay (as_usize sz, addr)
  with_size sz (fail e) = fail e

  -- what `RecvFrom::poll` makes of the handle's answer
  unfoldable pub datagram : RecvFrom → IoResult ℤ → IoResult (ℕ × SocketAddr)
  unfolding try_from
  datagram this (okay sz) =
      with_size sz (try_from (record (this.csock) { len = this.hdr.msg_namelen }))
  datagram this (fail e) = fail e

  -- the assignments in the closure of `SendTo::poll`
  unfoldable pub prepare_send : Layout → SendTo → Outcome SendTo
  unfolding from
  prepare_send at this = do
    addr ← unwrap Panic.unwrap_failed (first_addr this.dst)
    ret (record this {
      csock = from addr;
      iov = this.buf;
      hdr = record {
        msg_namelen = (from addr).len;
        msg_name = at.name_ptr;
        msg_iov = at.iov_ptr;
        msg_iovlen = 1;
      };
    })

  module _ ⦃S : SlabApi⦄ ⦃B : BufferApi⦄ ⦃U : UringApi⦄ {T : Type 0} where
    -- `RecvFrom::poll`; a fresh handle calls the closure
    unfoldable pub poll_recv :
        Layout
        → RecvFrom
        → T
        → ReactorInner T
        → Outcome (Poll (IoResult (ℕ × SocketAddr)) × RecvFrom × ReactorInner T)
    unfolding prepare_recv datagram
    poll_recv at this waker r = do
      let this' = is_fresh this.io RecvFrom (prepare_recv at this) this
      (p, io, r') ←
          Oneshot.submit_or_get_result this'.io
            (λ _. (U.build (Opcode.recv_msg this'.sock at.hdr_ptr), waker)) r
      ret (map_poll (datagram this') p, record this' { io = io }, r')

    -- `SendTo::poll`
    unfoldable pub poll_send :
        Layout → SendTo → T → ReactorInner T → Outcome (Poll (IoResult ℕ) × SendTo × ReactorInner T)
    unfolding prepare_send
    poll_send at this waker r = do
      this' ← is_fresh this.io (Outcome SendTo) (prepare_send at this) (ret this)
      (p, io, r') ←
          Oneshot.submit_or_get_result this'.io
            (λ _. (U.build (Opcode.send_msg this'.sock at.hdr_ptr), waker)) r
      ret (counted p, record this' { io = io }, r')
