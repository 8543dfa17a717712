-- ===== src/Futures/Actions.antt =====
-- About the futures of src/futures/ as clients of src/reactor/: what their polls submit and answer.
use trale.Prelude.{
  ℕ, ◌≡◌, refl, ◌∙◌, ◌^◌, ◌-◌, if◌then◌else◌, Outcome, ret, panic, ◌>>=◌, ℤ, negsuc, as_usize,
  ==_refl,
}
use trale.Slab.{SlabApi}
use trale.RingBuffer.{BufferApi}
use trale.Uring.{UringApi, Opcode, class_of, single_shot}
use trale.Reactor.Ring.Defs.{ReactorInner}
use trale.Reactor.Io.Value.{IoResult, Poll, map_poll, map_result}
use trale.Reactor.Io.Oneshot
use trale.Reactor.System.Defs.{System, poll_oneshot, IsFit, apply, update}
use trale.Futures.Transfer.{AsyncReader, AsyncWriter, poll_read, poll_write}
use trale.Futures.Files.{FileOpen, Mkdir, poll_open, poll_mkdir}
use trale.Futures.Events.{EventWaiter}
use trale.Futures.Events

module _ ⦃S : SlabApi⦄ ⦃B : BufferApi⦄ ⦃U : UringApi⦄ {T : Type 0} (s : System T) (h : ℕ)
    (waker : T) where
  -- The poll `m` of a future is the action that polls handle `h` with the opcode `o`. It answers
  -- `p` of what the handle has then, and the future is `f` of the handle.
  abbrev pub Acts :
      {P F : Type 0}
      → Opcode
      → (Poll (IoResult ℤ) → P)
      → (Oneshot.IoState → F)
      → Outcome (P × F × ReactorInner T)
      → Type 0
  Acts o p f m =
      IsFit (poll_oneshot h (U.build o) waker)
      × (m ≡ (
          apply s (poll_oneshot h (U.build o) waker) >>= λ t.
          ret (p (Oneshot.poll_of (t.oneshots h)), f (t.oneshots h), t.ring)))

  abbrev answered :
      Oneshot.IoState × ReactorInner T
      → Outcome (Poll (IoResult ℤ) × Oneshot.IoState × ReactorInner T)
  answered x = ret (Oneshot.poll_of x.0, x.0, x.1)

  abbrev stored : Poll (IoResult ℤ) × Oneshot.IoState × ReactorInner T → Outcome (System T)
  stored x = ret (record s { ring = x.2; oneshots = update s.oneshots h x.1 })

  acts :
      {P F : Type 0} (m : Outcome (Oneshot.IoState × ReactorInner T)) (p : Poll (IoResult ℤ) → P)
      (f : Oneshot.IoState → F) (k : System T → Outcome (P × F × ReactorInner T))
      → ((t : System T) → k t ≡ ret (p (Oneshot.poll_of (t.oneshots h)), f (t.oneshots h), t.ring))
      → ((m >>= answered) >>= λ x. ret (p x.0, f x.1, x.2)) ≡ (((m >>= answered) >>= stored) >>= k)
  acts (ret x) p f k eq = rw (eq, ==_refl h) refl
  acts (panic e) p f k eq = refl

  -- A future that passes one opcode to its handle.
  submits-Acts :
      {P F : Type 0} (io : Oneshot.IoState) (o : Opcode) (p : Poll (IoResult ℤ) → P)
      → (f : Oneshot.IoState → F) → io ≡ s.oneshots h
      → class_of o ≡ single_shot
      → Acts o p f (
          Oneshot.submit_or_get_result io (λ _. (U.build o, waker)) s.ring >>= λ x.
          ret (p x.0, f x.1, x.2))
  unfolding apply Oneshot.submit_or_get_result
  submits-Acts io o p f held one = (
    U.op_class-build o ∙ one,
    rw held
        (acts (Oneshot.advance (s.oneshots h) (λ _. (U.build o, waker)) s.ring) p f _ (λ t. refl)),
  )

  -- A poll of a reader, a writer, an opening of a file, a making of a directory or a wait for an
  -- event, whose handle is one of the system's, is exactly the action of the system that polls
  -- this handle with one opcode: a read or a write of the descriptor and the buffer, at the
  -- file's own position if it is seekable and at 0 otherwise, an opening or a making of the path
  -- with mode 0o777, a read of the event into the waiter's buffer. The poll panics as the action
  -- does, and answers what the handle then has: the count, the file of the descriptor, nothing,
  -- or the error.
  pub oneshot_polls-apply :
      ((a : AsyncReader)
        → a.io ≡ s.oneshots h
        → Acts
            (Opcode.read a.fd a.buf (if a.seekable then 2 ^ 64 - 1 else 0))
            (map_poll (map_result as_usize))
            (λ io. record a { io = io })
            (poll_read a waker s.ring))
      × ((a : AsyncWriter)
          → a.io ≡ s.oneshots h
          → Acts
              (Opcode.write a.fd a.buf (if a.seekable then 2 ^ 64 - 1 else 0))
              (map_poll (map_result as_usize))
              (λ io. record a { io = io })
              (poll_write a waker s.ring))
      × ((a : FileOpen)
          → a.io ≡ s.oneshots h
          → Acts
              (Opcode.open_at (negsuc 99) a.path a.flags 511)
              (map_poll (map_result (λ fd. record { inner = fd })))
              (λ io. record a { io = io })
              (poll_open a waker s.ring))
      × ((a : Mkdir)
          → a.io ≡ s.oneshots h
          → Acts
              (Opcode.mkdir_at (negsuc 99) a.path 511)
              (map_poll (map_result (λ _. tt)))
              (λ io. record a { io = io })
              (poll_mkdir a waker s.ring))
      × ((a : EventWaiter)
          → a.io ≡ s.oneshots h
          → Acts
              (Opcode.read a.inner a.wait_buf 0)
              (map_poll (map_result (λ _. tt)))
              (λ io. record a { io = io })
              (Events.poll a waker s.ring))
  unfolding poll_read poll_write poll_open poll_mkdir Events.poll
  oneshot_polls-apply = (
    λ a held. submits-Acts a.io _ _ (λ io. record a { io = io }) held refl,
    λ a held. submits-Acts a.io _ _ (λ io. record a { io = io }) held refl,
    λ a held. submits-Acts a.io _ _ (λ io. record a { io = io }) held refl,
    λ a held. submits-Acts a.io _ _ (λ io. record a { io = io }) held refl,
    λ a held. submits-Acts a.io _ _ (λ io. record a { io = io }) held refl,
  )
