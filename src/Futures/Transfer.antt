-- ===== src/Futures/Transfer.antt =====
-- src/futures/read.rs and src/futures/write.rs: one read or one write of a descriptor.
use trale.Prelude.{ℕ, ◌^◌, ◌-◌, Bool, if◌then◌else◌, Outcome, ret, ◌>>=◌, ℤ, as_usize}
use trale.Slab.{SlabApi}
use trale.RingBuffer.{BufferApi}
use trale.Uring.{UringApi, Buf, Opcode}
use trale.Reactor.Ring.Defs.{ReactorInner}
use trale.Reactor.Io.Value.{IoResult, Poll, map_poll, map_result}
use trale.Reactor.Io.Oneshot

pub record AsyncReader : Type 0 where
  pub fd : ℤ
  pub io : Oneshot.IoState
  pub buf : Buf
  pub seekable : Bool

pub record AsyncWriter : Type 0 where
  pub fd : ℤ
  pub io : Oneshot.IoState
  pub buf : Buf
  pub seekable : Bool

-- `u64::MAX` stands for the file's own position.
abbrev pub offset : Bool → ℕ
offset seekable = if seekable then 2 ^ 64 - 1 else 0

-- what `poll` makes of the handle's answer: `x as usize`
abbrev pub counted : Poll (IoResult ℤ) → Poll (IoResult ℕ)
counted p = map_poll (map_result as_usize) p

module _ ⦃S : SlabApi⦄ ⦃B : BufferApi⦄ ⦃U : UringApi⦄ {T : Type 0} where
  unfoldable pub poll_read :
      AsyncReader → T → ReactorInner T → Outcome (Poll (IoResult ℕ) × AsyncReader × ReactorInner T)
  poll_read this waker r = do
    (p, io, r') ←
        Oneshot.submit_or_get_result this.io
          (λ _. (U.build (Opcode.read this.fd this.buf (offset this.seekable)), waker)) r
    ret (counted p, record this { io = io }, r')

  unfoldable pub poll_write :
      AsyncWriter → T → ReactorInner T → Outcome (Poll (IoResult ℕ) × AsyncWriter × ReactorInner T)
  poll_write this waker r = do
    (p, io, r') ←
        Oneshot.submit_or_get_result this.io
          (λ _. (U.build (Opcode.write this.fd this.buf (offset this.seekable)), waker)) r
    ret (counted p, record this { io = io }, r')
