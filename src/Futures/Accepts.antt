-- ===== src/Futures/Accepts.antt =====
-- About `Stream::poll_next` of the listener of src/futures/tcp.rs: what it submits and yields.
use trale.Prelude.{
  ℕ, suc, ◌<◌, ◌≡◌, refl, true, false, Bool, Option, none, some, List, [], ◌∷◌, tail, Outcome, ret,
  panic, ◌>>=◌, ℤ, pos, negsuc, arith, ==_refl,
}
use mathlib.Core.Option
use trale.Slab.{SlabApi}
use trale.RingBuffer.{BufferApi}
use trale.Uring.{UringApi, Opcode}
use trale.Reactor.Ring.Defs.{ReactorInner, IoKind, submit_io}
use trale.Reactor.Io.Value.{
  IoResult, okay, fail, os_error, Poll, pending, ready, map_poll, map_result,
  reactor_value_to_result,
}
use trale.Reactor.Io.Multishot
use trale.Reactor.Io.Multishot.{IoState, fresh, submitted}
use trale.Reactor.System.Defs.{System, poll_multishot, IsFit, apply, update}
use trale.Reactor.System.Streams.{Holds, answer, poll-Holds}
use trale.Futures.Tcp.Defs.{TcpListener, TcpStream, stream_of, poll_next}

-- What a listener yields, by the kernel results that wait and whether the operation has ended: the
-- stream of the oldest one's descriptor, or the error whose negated number it is.
abbrev pub accepted : List ℤ → Bool → Poll (Option (IoResult TcpStream))
accepted (pos n ∷ xs) fin = ready (some (okay (record { inner = pos n })))
accepted (negsuc n ∷ xs) fin = ready (some (fail (os_error (pos (suc n)))))
accepted [] true = ready none
accepted [] false = pending

-- Errors of system calls are small.
abbrev pub HasSmallError : List ℤ → Type 0
HasSmallError (negsuc n ∷ xs) = n < 4095
HasSmallError _ = Unit

answer-accepted :
    (xs : List ℤ) (fin : Bool)
    → HasSmallError xs
    → map_poll (Option.map (map_result stream_of)) (answer xs fin) ≡ accepted xs fin
unfolding reactor_value_to_result
answer-accepted (pos n ∷ xs) fin small = refl
answer-accepted (negsuc n ∷ xs) fin small = ground arith
answer-accepted [] true small = refl
answer-accepted [] false small = refl

module _ ⦃S : SlabApi⦄ ⦃B : BufferApi⦄ ⦃U : UringApi⦄ {T : Type 0} (a : TcpListener)
    (waker : T) where
  -- The first poll is the action of the system that polls handle `h` with the listener's opcode.
  abbrev pub Accepts : System T → ℕ → Type 0
  Accepts s h =
      IsFit (poll_multishot h (U.build (Opcode.accept_multi a.inner)) waker)
      × (poll_next a waker s.ring ≡ (
          apply s (poll_multishot h (U.build (Opcode.accept_multi a.inner)) waker) >>= λ t.
          ret (pending, record a { io = t.multishots h }, t.ring)))

  -- what a first poll makes of its submission
  abbrev first :
      (ℕ × ℕ) × ReactorInner T → Outcome (Poll (Option (IoResult ℤ)) × IoState × ReactorInner T)
  first x = ret (pending, submitted x.0.1 x.0.0, x.1)

  fresh_acts :
      (s : System T) (h : ℕ) (m : Outcome ((ℕ × ℕ) × ReactorInner T))
      (f : Poll (Option (IoResult ℤ)) × IoState × ReactorInner T
        → Outcome (Poll (Option (IoResult TcpStream)) × TcpListener × ReactorInner T))
      (g : Poll (Option (IoResult ℤ)) × IoState × ReactorInner T → Outcome (System T))
      (k : System T → Outcome (Poll (Option (IoResult TcpStream)) × TcpListener × ReactorInner T))
      → ((st : IoState) (r : ReactorInner T) → f (pending, st, r) ≡ (g (pending, st, r) >>= k))
      → ((m >>= first) >>= f) ≡ (((m >>= first) >>= g) >>= k)
  fresh_acts s h (ret x) f g k eq = eq _ _
  fresh_acts s h (panic p) f g k eq = refl

  fresh-Accepts : (s : System T) (h : ℕ) → a.io ≡ fresh → s.multishots h ≡ fresh → Accepts s h
  unfolding poll_next apply Multishot.submit_or_get_result
  fresh-Accepts s h mine held = (
    U.op_class-build (Opcode.accept_multi a.inner),
    rw (mine, held)
        (fresh_acts s h
          (submit_io s.ring (U.build (Opcode.accept_multi a.inner)) waker IoKind.multi) _
          (λ x. ret (record s { ring = x.2; multishots = update s.multishots h x.1 })) _
          (λ st r. rw (==_refl h) refl)),
  )

  -- A listener's first poll is pending and submits one accepting operation on the listener's
  -- descriptor, as the multishot action of the system does. A later poll, with the handle's slot
  -- holding some kernel results, the oldest no large error, yields the oldest one, as the stream
  -- of its descriptor or as its error, and takes it from the slot; with none left it yields the
  -- end of the stream if the operation has ended, and is pending otherwise.
  pub poll_next-Accepts :
      ((s : System T) (h : ℕ) → a.io ≡ fresh → s.multishots h ≡ fresh → Accepts s h)
      × ((r : ReactorInner T) (i u : ℕ) (xs : List ℤ) (fin : Bool)
          → a.io ≡ submitted i u
          → HasSmallError xs
          → Holds r i xs fin
          → (q : ReactorInner T) × (poll_next a waker r ≡ ret (accepted xs fin, a, q))
            × Holds q i (tail xs) fin)
  unfolding poll_next
  poll_next-Accepts = (
    fresh-Accepts,
    λ r i u xs fin mine small holds.
        let (q, got, left) =
          poll-Holds r i u xs fin (λ _. (U.build (Opcode.accept_multi a.inner), waker)) holds in
        (q, rw (mine, got, answer-accepted xs fin small) refl, left),
  )
