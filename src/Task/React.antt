-- ===== src/Task/React.antt =====
-- `Reactor::react` of src/reactor/mod.rs over the ring: the wakers of the completions are woken one
-- by one, as the iterator hands them out. The rounds of the loop are bounded by fuel; the queue holds
-- the completions that were there when the iterator was made, so its length is enough.
use mathlib.Core.Option
use trale.Prelude.{
  ℕ, zero, suc, Option, none, some, List, [], ◌∷◌, Outcome, ret, Panic, ◌>>=◌, unwrap,
}
use trale.Slab.{SlabApi}
use trale.RingBuffer.{BufferApi}
use trale.Uring.{UringApi}
use trale.Reactor.Ring.Defs.{ReactorInner, next, wait}
use trale.Reactor.System.Defs.{System}
use trale.Task.Defs.{TaskId, Executor, wake}

module _ ⦃S : SlabApi⦄ ⦃B : BufferApi⦄ ⦃U : UringApi⦄ where
  module _ {F : Type 0} where
    -- the iterator is at its end, or the loop goes on with one waker woken
    abbrev pub woken :
        Option TaskId
        → (Executor F → Outcome (Option (ReactorInner TaskId × Executor F)))
        → ReactorInner TaskId
        → Executor F
        → Outcome (Option (ReactorInner TaskId × Executor F))
    woken none rest r x = ret (some (r, x))
    woken (some waker) rest r x = rest (wake x waker)

    -- the `for` loop; `none` means that the fuel ran out
    unfoldable pub wake_completed :
        ℕ → ReactorInner TaskId → Executor F → Outcome (Option (ReactorInner TaskId × Executor F))
    unfolding wake
    wake_completed zero r x = ret none
    wake_completed (suc n) r x = do (o, r') ← next r; woken o (λ y. wake_completed n r' y) r' x

    unfoldable pub react :
        ℕ → ReactorInner TaskId → Executor F → Outcome (Option (ReactorInner TaskId × Executor F))
    unfolding wake_completed
    react n r x = do r' ← wait r; wake_completed n r' x

  abbrev pub listed :
      Option TaskId
      → Outcome (Option (List TaskId × ReactorInner TaskId))
      → ReactorInner TaskId
      → Outcome (Option (List TaskId × ReactorInner TaskId))
  listed none rest r = ret (some ([], r))
  listed (some waker) rest r = do o ← rest; ret (Option.map (λ p. (waker ∷ p.0, p.1)) o)

  -- the wakers of all completions, in their order, with none woken yet
  unfoldable pub wakers :
      ℕ → ReactorInner TaskId → Outcome (Option (List TaskId × ReactorInner TaskId))
  wakers zero r = ret none
  wakers (suc n) r = do (o, r') ← next r; listed o (wakers n r') r'

  -- the reactor as the executor's loop sees it
  unfoldable pub react_all : System TaskId → Outcome (List TaskId × System TaskId)
  unfolding wakers
  react_all s = do
    r ← wait s.ring
    o ← wakers (suc (U.queued r.uring)) r
    (ws, r') ← unwrap Panic.unreachable o
    ret (ws, record s { ring = r' })
