-- ===== src/Futures/Events.antt =====
-- src/futures/event.rs: events on a semaphore `eventfd`.
use trale.Prelude.{
  ℕ, ◌==◌, not, if◌then◌else◌, Outcome, ret, ◌>>=◌, panic, Panic, ℤ, is_minus_one, as_usize,
}
use trale.Slab.{SlabApi}
use trale.RingBuffer.{BufferApi}
use trale.Uring.{UringApi, Buf, Opcode}
use trale.Libc.{LibcApi, World}
use trale.Reactor.Ring.Defs.{ReactorInner}
use trale.Reactor.Io.Value.{
  IoResult, okay, fail, os_error, of_kind, ErrorKind, Poll, map_poll, map_result,
}
use trale.Reactor.Io.Oneshot

pub record Event : Type 0 where
  pub inner : ℤ

-- `wait_buf` is eight bytes of the waiter itself.
pub record EventWaiter : Type 0 where
  pub inner : ℤ
  pub io : Oneshot.IoState
  pub wait_buf : Buf

-- `Event::wait`, for a waiter whose buffer is at `ptr`
unfoldable pub wait : Event → (ptr : ℕ) → EventWaiter
unfolding Oneshot.new
wait this ptr = record {
  inner = this.inner;
  io = Oneshot.new;
  wait_buf = record { ptr = ptr; len = 8 };
}

module _ ⦃L : LibcApi⦄ where
  unfoldable pub new : World → IoResult Event × World
  new w =
      let (fd, w') = L.eventfd w in
      (if is_minus_one fd then fail (os_error (L.errno w')) else okay (record { inner = fd }), w')

  unfoldable pub notify_one : Event → World → IoResult (Unit {0}) × World
  notify_one this w =
      let (res, w') = L.write_u64 this.inner 1 w in
      (
        if is_minus_one res
            then fail (os_error (L.errno w'))
            else if not (as_usize res == 8)
            then fail (of_kind ErrorKind.unexpected_eof)
            else okay tt,
        w',
      )

  -- `Clone::clone`
  unfoldable pub clone : Event → World → Outcome (Event × World)
  clone this w =
      let (fd, w') = L.dup this.inner w in
      if is_minus_one fd then panic Panic.unwrap_failed else ret (record { inner = fd }, w')

module _ ⦃S : SlabApi⦄ ⦃B : BufferApi⦄ ⦃U : UringApi⦄ {T : Type 0} where
  -- `EventWaiter::poll`
  unfoldable pub poll :
      EventWaiter
      → T
      → ReactorInner T
      → Outcome (Poll (IoResult (Unit {0})) × EventWaiter × ReactorInner T)
  poll this waker r = do
    (p, io, r') ←
        Oneshot.submit_or_get_result this.io
          (λ _. (U.build (Opcode.read this.inner this.wait_buf 0), waker)) r
    ret (map_poll (map_result (λ _. tt)) p, record this { io = io }, r')
