-- ===== src/Task/Join.antt =====
-- `TaskJoiner` of src/task.rs, and the async block that `spawn` puts around a future. The channel is
-- the standard library's `sync_channel(1)`; a receive that finds no value blocks while the sender
-- lives.
use trale.Prelude.{Bool, true, false, Option, none, some, Outcome, ret, panic, Panic, ◌>>=◌}
use trale.Slab.{SlabApi}
use trale.RingBuffer.{BufferApi}
use trale.Uring.{UringApi}
use trale.Libc.{LibcApi, World}
use trale.Reactor.Ring.Defs.{ReactorInner}
use trale.Reactor.Io.Value.{Poll, pending, ready, IoResult, okay, fail}
use trale.Futures.Events.{Event, EventWaiter}
use trale.Futures.Events

pub record Channel (A : Type 0) : Type 0 where
  pub buffer : Option A
  pub connected : Bool

-- `sync_channel(1)`
abbrev pub sync_channel : {A : Type 0} → Channel A
sync_channel = record { buffer = none; connected = true }

pub data Recv (A : Type 0) : Type 0 where
  received : A → Recv A
  blocks : Recv A
  disconnected : Recv A

abbrev pub recv_from : {A : Type 0} → Option A → Bool → Recv A
recv_from (some a) c = received a
recv_from none true = blocks
recv_from none false = disconnected

abbrev pub recv : {A : Type 0} → Channel A → Recv A
recv rx = recv_from rx.buffer rx.connected

-- `recv().unwrap()`; `none` is a call that blocks
unfoldable pub unwrap_recv : {A : Type 0} → Recv A → Outcome (Option A)
unwrap_recv (received a) = ret (some a)
unwrap_recv blocks = ret none
unwrap_recv disconnected = panic Panic.unwrap_failed

-- `TaskJoiner::join`
unfoldable pub join : {A : Type 0} → Channel A → Outcome (Option A)
unfolding unwrap_recv
join rx = unwrap_recv (recv rx)

pub record TaskJoiner : Type 0 where
  pub evt : Event
  pub finished : EventWaiter

module _ ⦃L : LibcApi⦄ {A : Type 0} where
  -- the async block of `spawn` after `f.await`: the event, the value, and the drop of both
  unfoldable pub finish : Event → A → Channel A → World → Channel A × World
  unfolding Events.notify_one
  finish evt2 value tx w =
      let (_, w') = Events.notify_one evt2 w in
      (record { buffer = some value; connected = false }, L.close evt2.inner w')

module _ ⦃S : SlabApi⦄ ⦃B : BufferApi⦄ ⦃U : UringApi⦄ {T A : Type 0} where
  abbrev pub with_value :
      TaskJoiner → ReactorInner T → Option A → Option (Poll A × TaskJoiner × ReactorInner T)
  with_value j r none = none
  with_value j r (some a) = some (ready a, j, r)

  -- `ready!(…).unwrap()` and the receive
  unfoldable pub joined :
      TaskJoiner
      → Channel A
      → Poll (IoResult (Unit {0})) × EventWaiter × ReactorInner T
      → Outcome (Option (Poll A × TaskJoiner × ReactorInner T))
  unfolding unwrap_recv
  joined this rx (pending, waiter, r) = ret (some (pending, record this { finished = waiter }, r))
  joined this rx (ready (fail e), waiter, r) = panic Panic.unwrap_failed
  joined this rx (ready (okay _), waiter, r) = do
    value ← unwrap_recv (recv rx)
    ret (with_value (record this { finished = waiter }) r value)

  -- `Future` for `TaskJoiner`; `none` is a poll that blocks
  unfoldable pub poll :
      TaskJoiner
      → Channel A
      → T
      → ReactorInner T
      → Outcome (Option (Poll A × TaskJoiner × ReactorInner T))
  unfolding Events.poll joined
  poll this rx waker r = do x ← Events.poll this.finished waker r; joined this rx x
