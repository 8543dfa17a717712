-- ===== src/Futures/Datagrams.antt =====
-- About src/futures/udp.rs: the addresses in the headers of sends.
use trale.Prelude.{◌≡◌, refl, List, ◌∷◌, ret}
use trale.Libc.{LibcApi}
use trale.Reactor.Io.Value.{okay}
use trale.Futures.SockAddr.{SocketAddr, IsAddress, unscoped, from, try_from, try_from-from}
use trale.Futures.Udp.{SendTo, Layout, prepare_send}

module _ ⦃L : LibcApi⦄ where
  pub prepare_send-names :
      (at : Layout) (this : SendTo) (a : SocketAddr) (rest : List SocketAddr)
      → this.dst ≡ okay (a ∷ rest)
      → IsAddress a
      → (sent : SendTo) × (prepare_send at this ≡ ret sent)
        × (try_from sent.csock ≡ okay (unscoped a))
        × (sent.hdr.msg_namelen ≡ sent.csock.len)
        × (sent.iov ≡ this.buf)
  unfolding prepare_send
  prepare_send-names at this a rest dst fits = (
    record this {
      csock = from a;
      iov = this.buf;
      hdr = record {
        msg_namelen = (from a).len;
        msg_name = at.name_ptr;
        msg_iov = at.iov_ptr;
        msg_iovlen = 1;
      };
    },
    rw dst,
    try_from-from a fits,
    refl,
    refl,
  )
