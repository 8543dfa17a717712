-- ===== src/Futures/Exclusion/Polls.antt =====
-- About `poll_lock` and `drop` of a mutex: what they do to the mutex's event.
use trale.Prelude.{
  ℕ, suc, ◌≡◌, refl, ap, ◌∙◌, inl, inr, false, Bool-cases, some, Bool, true, OnRet, OnRet-bind,
  OnRet-each, OnRet-of, OnRet-all, ℤ, pos, same_fd, same_fd-eq, arith,
}
use trale.Slab.{SlabApi}
use trale.RingBuffer.{BufferApi}
use trale.Uring.{UringApi, Opcode}
use trale.Libc.{LibcApi, World}
use trale.Reactor.Ring.Defs.{ReactorInner}
use trale.Reactor.Io.Value.{IoResult, Poll, pending, ready, okay, fail, map_poll, map_result}
use trale.Futures.Exclusion.Defs.{is_ready, IsTold}
use trale.Futures.Expiry.{submit-pending}
use trale.Reactor.Io.Oneshot
use trale.Futures.Events.{Event, EventWaiter}
use trale.Futures.Events
use trale.Futures.Locks.{
  Mutex, LockGuard, Lock, unstarted, waiting, returned, poll_lock, drop, awaited,
}

-- The clone of an attempt is another descriptor than the mutex's.
abbrev pub Apart : Event → Lock → Type 0
Apart m unstarted = Unit
Apart m (waiting evt waiter) = same_fd evt.inner m.inner ≡ false
Apart m returned = Unit

module _ ⦃L : LibcApi⦄ where
  -- The descriptor of the mutex still refers to `e`, whose count is as it was.
  pub record Keeps (m : Event) (e : ℕ) (w w' : World) : Type 0 where
    pub event : L.event_of w' m.inner ≡ some e
    pub same_count : L.count w' e ≡ L.count w e

  pub close-Keeps :
      (m : Event) (e : ℕ) (w : World) (fd : ℤ)
      → L.event_of w m.inner ≡ some e
      → same_fd fd m.inner ≡ false
      → Keeps m e w (L.close fd w)
  close-Keeps m e w fd is apart = record {
    event = rw (L.event_of-close fd w m.inner, apart) is;
    same_count = L.count-close fd w e;
  }

  -- A clone of the mutex's event has a descriptor of its own.
  clone-Keeps :
      (m : Event) (e : ℕ) (w : World)
      → L.event_of w m.inner ≡ some e
      → OnRet (λ x. Keeps m e w x.1 × (same_fd x.0.inner m.inner ≡ false)) (Events.clone m w)
  unfolding Events.clone
  clone-Keeps m e w is = elim (L.dup_copies m.inner w) [
    | inl failed ↦ rw failed tt
    | inr (n, copied, free, events) ↦
        let apart : same_fd (pos n) m.inner ≡ false = elim (Bool-cases (same_fd (pos n) m.inner)) [
          | inl same ↦ absurd (cc (ap (L.event_of w) (same_fd-eq (pos n) m.inner same), free, is))
          | inr other ↦ other
        ] in
        rw copied (
          record { event = rw (events m.inner, apart) is; same_count = L.count-dup m.inner w e },
          apart,
        )
  ]

  module _ ⦃S : SlabApi⦄ ⦃B : BufferApi⦄ ⦃U : UringApi⦄ {T : Type 0} (m : Event) (e : ℕ) where
    abbrev pub Polled : World → Poll LockGuard × Lock × ReactorInner T × World → Type 0
    Polled w x = Keeps m e w x.3 × Apart m x.1

    awaited-Polled :
        (w w' : World) (evt : Event)
        → (x : Poll (IoResult (Unit {0})) × EventWaiter × ReactorInner T) → Keeps m e w w'
        → same_fd evt.inner m.inner ≡ false
        → OnRet (Polled w) (awaited m evt w' x)
    awaited-Polled w w' evt (pending, waiter, r) k apart = (k, apart)
    awaited-Polled w w' evt (ready (okay v), waiter, r) k apart =
        let c = close-Keeps m e w' evt.inner k.event apart in
        (record { event = c.event; same_count = c.same_count ∙ k.same_count }, tt)
    awaited-Polled w w' evt (ready (fail f), waiter, r) k apart = tt

  module _ ⦃S : SlabApi⦄ ⦃B : BufferApi⦄ ⦃U : UringApi⦄ {T A : Type 0} (m : Mutex A) (e : ℕ) where
    pub poll_lock-Polled :
        (l : Lock) (ptr : ℕ) (waker : T) (r : ReactorInner T) (w : World)
        → L.event_of w m.evt.inner ≡ some e
        → Apart m.evt l
        → OnRet (Polled m.evt e w) (poll_lock m ptr l waker r w)
    unfolding poll_lock
    poll_lock-Polled unstarted ptr waker r w is apart =
        OnRet-bind (λ x. Keeps m.evt e w x.1 × (same_fd x.0.inner m.evt.inner ≡ false))
          (Polled m.evt e w) (Events.clone m.evt w) _ (clone-Keeps m.evt e w is)
          λ x k.
            OnRet-bind (λ _. Unit {0}) (Polled m.evt e w)
              (Events.poll (Events.wait x.0 ptr) waker r) _ (OnRet-all (λ _. Unit {0}) _ (λ _. tt))
              (λ y _. awaited-Polled m.evt e w x.1 x.0 y k.0 k.1)
    poll_lock-Polled (waiting evt waiter) ptr waker r w is apart =
        OnRet-bind (λ _. Unit {0}) (Polled m.evt e w) (Events.poll waiter waker r) _
          (OnRet-all (λ _. Unit {0}) _ (λ _. tt))
          (λ y _. awaited-Polled m.evt e w w evt y (record { event = is; same_count = refl }) apart)
    poll_lock-Polled returned ptr waker r w is apart = tt

  -- A guard is handed out only after the await.
  module _ ⦃S : SlabApi⦄ ⦃B : BufferApi⦄ ⦃U : UringApi⦄ {T A : Type 0} (m : Mutex A)
      (drawn : Bool) where
    abbrev Tells : Poll LockGuard × Lock × ReactorInner T × World → Type 0
    Tells y = is_ready y.0 ≡ true → drawn ≡ true

    awaited-Tells :
        (evt : Event) (w : World) (x : Poll (IoResult (Unit {0})) × EventWaiter × ReactorInner T)
        → (is_ready x.0 ≡ true → drawn ≡ true)
        → OnRet Tells (awaited m.evt evt w x)
    awaited-Tells evt w (pending, waiter, r) h = λ e. absurd (cc)
    awaited-Tells evt w (ready (okay v), waiter, r) h = λ e. h refl
    awaited-Tells evt w (ready (fail f), waiter, r) h = tt

    -- A new waiter is pending.
    wait-pending :
        (evt : Event) (ptr : ℕ) (waker : T) (r : ReactorInner T)
        → OnRet (λ x. x.0 ≡ pending) (Events.poll (Events.wait evt ptr) waker r)
    unfolding Events.poll Events.wait Oneshot.new
    wait-pending evt ptr waker r =
        OnRet-bind (λ x. x.0 ≡ pending) (λ x. x.0 ≡ pending)
          (Oneshot.submit_or_get_result Oneshot.IoState.fresh
            (λ _. (U.build (Opcode.read evt.inner (record { ptr = ptr; len = 8 }) 0), waker)) r)
          _ (submit-pending _ r) (λ x e. ap (map_poll (map_result (λ _. tt))) e)

    pub poll_lock-IsTold :
        (l : Lock) (ptr : ℕ) (waker : T) (r : ReactorInner T) (w : World)
        → IsTold l waker r drawn
        → OnRet Tells (poll_lock m ptr l waker r w)
    unfolding poll_lock
    poll_lock-IsTold unstarted ptr waker r w told = OnRet-each Tells (Events.clone m.evt w) _ λ x.
        OnRet-bind (λ y. y.0 ≡ pending) Tells (Events.poll (Events.wait x.0 ptr) waker r) _
          (wait-pending x.0 ptr waker r) (λ y e. awaited-Tells x.0 x.1 y (λ h. absurd (cc)))
    poll_lock-IsTold (waiting evt waiter) ptr waker r w told =
        OnRet-bind (λ y. is_ready y.0 ≡ true → drawn ≡ true) Tells (Events.poll waiter waker r) _
          (OnRet-of _ _ told) (λ y h. awaited-Tells evt w y h)
    poll_lock-IsTold returned ptr waker r w told = tt

  -- Dropping a guard adds one to the count.
  pub drop-one_more :
      (g : LockGuard) (e : ℕ) (w : World)
      → L.event_of w g.mtx.inner ≡ some e
      → OnRet
          (λ w'. (L.event_of w' g.mtx.inner ≡ some e) × (L.count w' e ≡ suc (L.count w e)))
          (drop g w)
  unfolding drop Events.notify_one
  drop-one_more g e w is = elim (L.write_u64_counts g.mtx.inner 1 w e is) [
    | inl failed ↦ rw failed tt
    | inr (wrote, still, more) ↦ rw wrote (still, omega (arith, more))
  ]
