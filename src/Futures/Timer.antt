-- ===== src/Futures/Timer.antt =====
-- src/futures/timer.rs: a timer, over a clock that the system passes in. A time is a number of
-- nanoseconds.
use trale.Prelude.{
  ℕ, ◌+◌, ◌-◌, ◌/◌, ◌%◌, Bool, if◌then◌else◌, ltb, Outcome, ret, ◌>>=◌, panic, Panic, Option, none,
  some, ℤ, is_minus_one, unwrap,
}
use trale.Slab.{SlabApi}
use trale.RingBuffer.{BufferApi}
use trale.Uring.{UringApi, Buf, Opcode}
use trale.Libc.{LibcApi, World}
use trale.Reactor.Ring.Defs.{ReactorInner}
use trale.Reactor.Io.Value.{IoResult, okay, fail, os_error, Poll, ready, map_poll}
use trale.Reactor.Io.Oneshot

-- `buf` is the address of the eight bytes that the read fills.
pub record Timer : Type 0 where
  pub expiration : ℕ
  pub io : Oneshot.IoState
  pub buf : Buf
  pub fd : ℤ

abbrev pub nanos : ℕ
nanos = 1000000000

-- `duration_since`, which fails for a later time
abbrev pub duration_since : ℕ → ℕ → Option ℕ
duration_since t earlier = if ltb t earlier then none else some (t - earlier)

module _ ⦃L : LibcApi⦄ where
  -- `Timer::sleep` at the time `now`
  unfoldable pub sleep : ℕ → ℕ → (ptr : ℕ) → World → IoResult Timer × World
  unfolding Oneshot.new
  sleep d now ptr w =
      let (timer, w') = L.timerfd_create w in
      (
        if is_minus_one timer
            then fail (os_error (L.errno w'))
            else okay (record {
              expiration = now + d;
              io = Oneshot.new;
              buf = record { ptr = ptr; len = 8 };
              fd = timer;
            }),
        w',
      )

  -- the first half of the closure in `poll`: the time left goes to the timer
  unfoldable pub arm : Timer → ℕ → World → Outcome World
  arm this now w = do
    expiration ← unwrap Panic.unwrap_failed (duration_since this.expiration now)
    let (res, w') = L.timerfd_settime this.fd (expiration / nanos) (expiration % nanos) w
    if is_minus_one res then panic Panic.unwrap_failed else ret w'

  abbrev pub is_fresh : Oneshot.IoState → Bool
  is_fresh Oneshot.IoState.fresh = Bool.true
  is_fresh _ = Bool.false

  -- The handle calls the closure when it is fresh.
  abbrev pub arm_first : Timer → ℕ → World → Outcome World
  arm_first this now w = if is_fresh this.io then arm this now w else ret w

  module _ ⦃S : SlabApi⦄ ⦃B : BufferApi⦄ ⦃U : UringApi⦄ {T : Type 0} where
    abbrev pub poll_io :
        Timer
        → ℕ
        → T
        → ReactorInner T
        → World
        → Outcome (Poll (Unit {0}) × Timer × ReactorInner T × World)
    poll_io this now waker r w = do
      w' ← arm_first this now w
      (p, io, r') ←
          Oneshot.submit_or_get_result this.io
            (λ _. (U.build (Opcode.read this.fd this.buf 0), waker)) r
      ret (map_poll (λ _. tt) p, record this { io = io }, r', w')

    -- `Timer::poll`, where `now` is read at its start and `now'` in the closure
    unfoldable pub poll :
        Timer
        → (now now' : ℕ) → T
        → ReactorInner T
        → World
        → Outcome (Poll (Unit {0}) × Timer × ReactorInner T × World)
    unfolding arm
    poll this now now' waker r w =
        if ltb this.expiration now then ret (ready tt, this, r, w) else poll_io this now' waker r w
