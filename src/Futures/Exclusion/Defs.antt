-- ===== src/Futures/Exclusion/Defs.antt =====
-- The attempts to lock one mutex. An attempt is a call of `Mutex::lock`; the ring that a poll finds
-- is arbitrary, save that the handle of an event is ready only once its read has been completed.
use trale.Prelude.{
  ℕ, suc, ◌≡◌, Bool, true, false, not, ◌&&◌, ◌||◌, ◌==◌, if◌then◌else◌, some, ret, ℤ,
}
use trale.Slab.{SlabApi}
use trale.RingBuffer.{BufferApi}
use trale.Uring.{UringApi}
use trale.Libc.{LibcApi, World}
use trale.Reactor.Ring.Defs.{ReactorInner}
use trale.Reactor.Io.Value.{IoResult, Poll, pending, ready}
use trale.Futures.Events.{Event, EventWaiter}
use trale.Futures.Events
use trale.Futures.Locks.{Mutex, LockGuard, Lock, unstarted, waiting, returned, poll_lock, drop}

abbrev pub is_ready : {A : Type 0} → Poll A → Bool
is_ready pending = false
is_ready (ready a) = true

abbrev pub is_unstarted : Lock → Bool
is_unstarted unstarted = true
is_unstarted _ = false

abbrev pub set {ℓ} : {A : Type ℓ} → (ℕ → A) → ℕ → A → ℕ → A
set f i a j = if i == j then a else f j

module _ ⦃S : SlabApi⦄ ⦃B : BufferApi⦄ ⦃U : UringApi⦄ {T : Type 0} where
  -- The reactor is ready with the event of an attempt that awaits it only if the kernel has
  -- completed the attempt's read.
  abbrev pub IsTold : Lock → T → ReactorInner T → Bool → Type 0
  IsTold unstarted waker r drawn = Unit
  IsTold (waiting evt waiter) waker r drawn =
      (x : Poll (IoResult (Unit {0})) × EventWaiter × ReactorInner T)
      → Events.poll waiter waker r ≡ ret x
      → is_ready x.0 ≡ true
      → drawn ≡ true
  IsTold returned waker r drawn = Unit

module _ ⦃L : LibcApi⦄ where
  -- `reading`: the kernel has a read of the attempt in flight. `drawn`: it has completed the read,
  -- and the attempt has not been told.
  pub record Shared : Type 0 where
    pub world : World
    pub lock : ℕ → Lock
    pub reading : ℕ → Bool
    pub drawn : ℕ → Bool
    pub guarded : ℕ → Bool

  -- Other code leaves the event `e` and the descriptors that refer to it as they are.
  pub record Spares (e : ℕ) (w w' : World) : Type 0 where
    pub same_count : L.count w' e ≡ L.count w e
    pub same_event : (fd : ℤ) → L.event_of w fd ≡ some e → L.event_of w' fd ≡ some e

  -- The kernel takes one from the count of the event `e`.
  pub record Takes (e : ℕ) (w w' : World) : Type 0 where
    pub one_less : L.count w e ≡ suc (L.count w' e)
    pub same_events : (fd : ℤ) → L.event_of w' fd ≡ L.event_of w fd

  module _ ⦃S : SlabApi⦄ ⦃B : BufferApi⦄ ⦃U : UringApi⦄ (T : Type 0) {A : Type 0} (m : Mutex A)
      (e : ℕ) where
    pub data Step : Shared → Shared → Type 0 where
      poll :
          (s : Shared) (j ptr : ℕ) (waker : T) (r r' : ReactorInner T)
          → (p : Poll LockGuard) (l : Lock) (w : World)
          → poll_lock m ptr (s.lock j) waker r s.world ≡ ret (p, l, r', w)
          → IsTold (s.lock j) waker r (s.drawn j)
          → Step s (record {
            world = w;
            lock = set s.lock j l;
            reading = set s.reading j (s.reading j || is_unstarted (s.lock j));
            drawn = set s.drawn j (s.drawn j && not (is_ready p));
            guarded = set s.guarded j (s.guarded j || is_ready p);
          })
      complete :
          (s : Shared) (j : ℕ) (w : World)
          → s.reading j ≡ true
          → Takes e s.world w
          → Step s
              (record s { world = w; reading = set s.reading j false; drawn = set s.drawn j true })
      release :
          (s : Shared) (j : ℕ) (w : World)
          → s.guarded j ≡ true
          → drop (record { mtx = m.evt }) s.world ≡ ret w
          → Step s (record s { world = w; guarded = set s.guarded j false })
      -- the lock's future is dropped in its `await`, which closes the clone; its read goes on
      abandon :
          (s : Shared) (j : ℕ) (evt : Event) (waiter : EventWaiter)
          → s.lock j ≡ waiting evt waiter
          → Step s (record s { world = L.close evt.inner s.world; lock = set s.lock j returned })
      other : (s : Shared) (w : World) → Spares e s.world w → Step s (record s { world = w })

    pub data Reach (s : Shared) : Shared → Type 0 where
      here : Reach s s
      next : {t u : Shared} → Reach s t → Step t u → Reach s u

  -- A mutex that `Mutex::new` has made, before the first attempt.
  abbrev pub start : World → Shared
  start w = record {
    world = w;
    lock = λ j. unstarted;
    reading = λ j. false;
    drawn = λ j. false;
    guarded = λ j. false;
  }
