-- ===== src/Tests/Futures.antt =====
-- Sockets, addresses, timers and datagrams at concrete inputs, on a table of descriptors.
use trale.Prelude.{
  ℕ, ◌≡◌, refl, some, List, [], ◌∷◌, ret, panic, Panic, pos, arith, ◌*◌, ◌+◌, ◌<◌, is_minus_one,
  if◌then◌else◌,
}
use trale.Slab.Vector.{vector_slab}
use trale.RingBuffer.Fifo.{fifo_buffer}
use trale.Uring.{UringApi}
use trale.Uring.Scripted.{scripted}
use trale.Libc.Table.{no_web, Table, table_libc}
use trale.Reactor.Ring.Defs
use trale.Reactor.Ring.Defs.{ReactorInner}
use trale.Reactor.Io.Value.{IoResult, okay, ready}
use trale.Reactor.Io.Oneshot
use trale.Task.Join
use trale.Task.Join.{TaskJoiner, join, finish, sync_channel}
use trale.Task.Joining.{Signals, finish-joins}
use trale.Futures.SockAddr.{SocketAddr, v4, v6, unscoped, from, try_from, try_from-from}
use trale.Futures.Udp.{SendTo, Layout, send_to, prepare_send}
use trale.Futures.Datagrams.{prepare_send-names}
use trale.Futures.Timer.{Timer, nanos, arm}
use trale.Futures.Expiry.{arm-settime}
use trale.Futures.Tcp.Defs.{TcpListener, unstarted, bind, poll_connect}
use trale.Futures.Tcp.Sockets.{Opens, of_listener, bind-Opens}
use trale.Futures.Tcp.Connects.{Connects, poll_connect-Opens}

instance abbrev kernel : UringApi
kernel = scripted []

abbrev task : ℕ
task = 7

abbrev no_fds : Table
no_fds = record { facts = []; top = 3; busy_port = 80; events = []; counts = λ e. 0; web = no_web }

abbrev localhost : ℕ → SocketAddr
localhost port = v4 (record { ip = 2130706433; port = port })

abbrev link_local : SocketAddr
link_local = v6 (record {
  ip = 338288524927261089654018896841347694593;
  port = 8080;
  flowinfo = 0;
  scope_id = 2;
})

try_from-from_example : try_from (from link_local) ≡ okay (unscoped link_local)
try_from-from_example = try_from-from link_local (omega arith)

-- the first port is busy: its socket is closed, and the second address is bound
abbrev bind_addrs : IoResult (List SocketAddr)
bind_addrs = okay (localhost 80 ∷ localhost 8080 ∷ [])

bind-Opens_example :
    (res : IoResult TcpListener) × (w : Table) × (bind bind_addrs no_fds ≡ ret (res, w))
    × Opens no_fds (of_listener res) w
bind-Opens_example = bind-Opens bind_addrs no_fds

poll_connect-Opens_example :
    Connects no_fds (poll_connect task 4096 (unstarted bind_addrs) Defs.new no_fds)
poll_connect-Opens_example =
    poll_connect-Opens task 4096 (unstarted bind_addrs) Defs.new no_fds no_fds (λ j. refl)

abbrev at : Layout
at = record { hdr_ptr = 64; iov_ptr = 128; name_ptr = 192 }

abbrev sending : SendTo
unfolding send_to Oneshot.new
sending =
    send_to (record { inner = pos 5 }) (record { ptr = 1024; len = 3 }) (okay (localhost 8080 ∷ []))
      (from (localhost 0))

prepare_send-names_example :
    (sent : SendTo) × (prepare_send at sending ≡ ret sent)
    × (try_from sent.csock ≡ okay (unscoped (localhost 8080)))
    × (sent.hdr.msg_namelen ≡ sent.csock.len)
    × (sent.iov ≡ sending.buf)
unfolding sending
prepare_send-names_example = prepare_send-names at sending (localhost 8080) [] refl (omega arith)

-- a second and a half, on a clock that has run for ten
abbrev timer : Timer
timer = record {
  expiration = 11500000000;
  io = Oneshot.IoState.fresh;
  buf = record { ptr = 2048; len = 8 };
  fd = pos 6;
}

arm-settime_example :
    (s : ℕ) × (n : ℕ) × (s * nanos + n ≡ 1500000000)
    × (n < nanos)
    × (arm timer 10000000000 no_fds ≡ (
        if is_minus_one (table_libc.timerfd_settime (pos 6) s n no_fds).0
        then panic Panic.unwrap_failed
        else ret (table_libc.timerfd_settime (pos 6) s n no_fds).1))
arm-settime_example = arm-settime timer 10000000000 no_fds (omega arith)

-- the event of a joiner, with the task's clone of it
abbrev spawned : Table
spawned = record no_fds { top = 5; events = (pos 4, some 3) ∷ (pos 3, some 3) ∷ [] }

abbrev joiner : TaskJoiner
joiner = record {
  evt = record { inner = pos 3 };
  finished = record {
    inner = pos 3;
    io = Oneshot.IoState.finished (pos 8);
    wait_buf = record { ptr = 4096; len = 8 };
  };
}

finish-joins_example :
    Signals
      (pos 4)
      (pos 3)
      3
      spawned
      (finish (record { inner = pos 4 }) task sync_channel spawned).1
    × (join (finish (record { inner = pos 4 }) task sync_channel spawned).0 ≡ ret (some task))
    × (Join.poll joiner
          (finish (record { inner = pos 4 }) task sync_channel spawned).0
          task
          (Defs.new {T = ℕ})
        ≡ ret (some (ready task, joiner, Defs.new)))
finish-joins_example =
    finish-joins (record { inner = pos 4 }) task sync_channel spawned joiner 8 3 task Defs.new refl
      refl refl refl
