-- ===== src/Futures/Locks.antt =====
-- src/futures/mutex.rs: a mutex whose token is the count of its event. `lock` is an `async` function,
-- written as the states between its polls; the object is in the mutex.
use trale.Prelude.{ℕ, Outcome, ret, ◌>>=◌, panic, Panic}
use trale.Slab.{SlabApi}
use trale.RingBuffer.{BufferApi}
use trale.Uring.{UringApi}
use trale.Libc.{LibcApi, World}
use trale.Reactor.Ring.Defs.{ReactorInner}
use trale.Reactor.Io.Value.{IoResult, okay, fail, Poll, pending, ready}
use trale.Futures.Events.{Event, EventWaiter}
use trale.Futures.Events

pub record Mutex (A : Type 0) : Type 0 where
  pub evt : Event
  pub obj : A

-- A guard is known by its mutex's event.
pub record LockGuard : Type 0 where
  pub mtx : Event

-- Not yet polled; in the `await`, with the cloned event; over.
pub data Lock : Type 0 where
  unstarted : Lock
  waiting : Event → EventWaiter → Lock
  returned : Lock

-- `Deref` and `DerefMut`
unfoldable pub deref : {A : Type 0} → Mutex A → A
deref m = m.obj

unfoldable pub deref_mut : {A : Type 0} → Mutex A → A → Mutex A
deref_mut m a = record m { obj = a }

module _ ⦃L : LibcApi⦄ where
  abbrev pub notified :
      {A : Type 0} → Event → A → IoResult (Unit {0}) × World → IoResult (Mutex A) × World
  notified evt obj (okay _, w) = (okay (record { evt = evt; obj = obj }), w)
  notified evt obj (fail e, w) = (fail e, L.close evt.inner w)

  abbrev pub made : {A : Type 0} → A → IoResult Event × World → IoResult (Mutex A) × World
  made obj (okay evt, w) = notified evt obj (Events.notify_one evt w)
  made obj (fail e, w) = (fail e, w)

  -- `Mutex::new`
  unfoldable pub new : {A : Type 0} → A → World → IoResult (Mutex A) × World
  unfolding Events.new Events.notify_one
  new obj w = made obj (Events.new w)

  abbrev pub unwrapped : IoResult (Unit {0}) × World → Outcome World
  unwrapped (okay _, w) = ret w
  unwrapped (fail e, w) = panic Panic.unwrap_failed

  -- `Drop` of a guard
  unfoldable pub drop : LockGuard → World → Outcome World
  unfolding Events.notify_one
  drop g w = unwrapped (Events.notify_one g.mtx w)

  module _ ⦃S : SlabApi⦄ ⦃B : BufferApi⦄ ⦃U : UringApi⦄ {T : Type 0} where
    -- the `unwrap` of the event, after which the clone is closed
    abbrev pub awaited :
        Event
        → Event
        → World
        → Poll (IoResult (Unit {0})) × EventWaiter × ReactorInner T
        → Outcome (Poll LockGuard × Lock × ReactorInner T × World)
    awaited mtx evt w (pending, waiter, r) = ret (pending, waiting evt waiter, r, w)
    awaited mtx evt w (ready (okay _), waiter, r) =
        ret (ready (record { mtx = mtx }), returned, r, L.close evt.inner w)
    awaited mtx evt w (ready (fail e), waiter, r) = panic Panic.unwrap_failed

    -- a poll of `Mutex::lock`
    unfoldable pub poll_lock :
        {A : Type 0}
        → Mutex A
        → (ptr : ℕ) → Lock
        → T
        → ReactorInner T
        → World
        → Outcome (Poll LockGuard × Lock × ReactorInner T × World)
    unfolding Events.clone Events.wait Events.poll
    poll_lock m ptr unstarted waker r w = do
      (evt, w') ← Events.clone m.evt w
      x ← Events.poll (Events.wait evt ptr) waker r
      awaited m.evt evt w' x
    poll_lock m ptr (waiting evt waiter) waker r w = do
      x ← Events.poll waiter waker r
      awaited m.evt evt w x
    poll_lock m ptr returned waker r w = panic Panic.resumed
