-- ===== src/Futures/Reads.antt =====
-- About src/futures/read.rs and src/futures/write.rs: the completion of a read or a write.
use trale.Prelude.{ℕ, suc, ◌<◌, ◌^◌, ◌≡◌, refl, some, ret, arith, ℤ, pos, negsuc}
use trale.Slab.{SlabApi}
use trale.RingBuffer.{BufferApi}
use trale.Uring.{UringApi, Cqe, Opcode}
use trale.Reactor.Ring.Defs.{ReactorInner}
use trale.Reactor.Io.Value.{IoResult, okay, fail, os_error, ready, reactor_value_to_result}
use trale.Reactor.Io.Oneshot.{submitted, finished}
use trale.Reactor.System.Defs.{System, next_completion, apply}
use trale.Reactor.System.Lanes.{oneshot_lane}
use trale.Reactor.System.Invariant.{Inv}
use trale.Reactor.System.Delivery.{next-poll}
use trale.Futures.Transfer.{AsyncReader, AsyncWriter, counted, offset, poll_read, poll_write}

-- What a transfer returns for a kernel result: a count, or the error whose negated number it is.
abbrev pub transferred : ℤ → IoResult ℕ
transferred (pos n) = okay n
transferred (negsuc n) = fail (os_error (pos (suc n)))

-- Errors of system calls are small.
abbrev pub IsResult : ℤ → Type 0
IsResult (pos n) = n < 2 ^ 31
IsResult (negsuc n) = n < 4095

counted-transferred :
    (v : ℤ) → IsResult v → counted (ready (reactor_value_to_result v)) ≡ ready (transferred v)
unfolding reactor_value_to_result
counted-transferred (pos n) lt = refl
counted-transferred (negsuc n) lt = ground arith

module _ ⦃S : SlabApi⦄ ⦃B : BufferApi⦄ ⦃U : UringApi⦄ {T : Type 0} (s : System T) (h i : ℕ)
    (c : Cqe) (v : Inv s) (held : s.oneshots h ≡ submitted i)
    (flies : (oneshot_lane s).flying c.user_data ≡ some i) (came : (U.next s.ring.uring).0 ≡ some c)
    (small : IsResult c.result) where
  -- When the next completion is that of a submitted handle, in a state that keeps the invariant,
  -- and its result is a count or a small negated error, it is handled; the next poll of a reader
  -- or a writer with this handle returns the count, or the error.
  pub next-transfers :
      (t : System T) × (apply s next_completion ≡ ret t)
      × ((a : AsyncReader) (waker : T)
          → a.io ≡ t.oneshots h
          → (r : ReactorInner T) × (poll_read a waker t.ring
              ≡ ret (ready (transferred c.result), record a { io = finished c.result }, r)))
      × ((a : AsyncWriter) (waker : T)
          → a.io ≡ t.oneshots h
          → (r : ReactorInner T) × (poll_write a waker t.ring
              ≡ ret (ready (transferred c.result), record a { io = finished c.result }, r)))
  unfolding poll_read poll_write
  next-transfers =
      let (t, eq, polls, others) = next-poll s h i c v held flies came in
      (
        t,
        eq,
        λ a waker mine.
            let (r, got, again) =
              polls (λ _. (U.build (Opcode.read a.fd a.buf (offset a.seekable)), waker)) in
            (r, rw (mine, got, counted-transferred c.result small)),
        λ a waker mine.
            let (r, got, again) =
              polls (λ _. (U.build (Opcode.write a.fd a.buf (offset a.seekable)), waker)) in
            (r, rw (mine, got, counted-transferred c.result small)),
      )
