-- ===== src/Futures/Tokens.antt =====
-- About src/futures/mutex.rs and src/futures/event.rs: the count of a mutex's event.
use trale.Prelude.{ℕ, suc, ◌≡◌, inl, inr, some, OnRet, pos, arith}
use trale.Libc.{LibcApi, World}
use trale.Reactor.Io.Value.{IoResult, okay, fail}
use trale.Futures.Events.{Event}
use trale.Futures.Events
use trale.Futures.Locks.{Mutex, LockGuard, new, notified, unwrapped, drop}

module _ ⦃L : LibcApi⦄ where
  -- The count of the event of `evt` is `n`.
  abbrev pub Counts : World → Event → ℕ → Type 0
  Counts w evt n = (e : ℕ) × (L.event_of w evt.inner ≡ some e) × (L.count w e ≡ n)

  -- A successful call leaves the count at `n`.
  abbrev pub Notified : Event → ℕ → IoResult (Unit {0}) × World → Type 0
  Notified evt n (okay _, w) = Counts w evt n
  Notified evt n (fail e, w) = Unit

  pub notify_one-Counts :
      (evt : Event) (w : World) (n : ℕ)
      → Counts w evt n
      → Notified evt (suc n) (Events.notify_one evt w)
  unfolding Events.notify_one
  notify_one-Counts evt w n (e, is, at) = elim (L.write_u64_counts evt.inner 1 w e is) [
    | inl failed ↦ rw failed tt
    | inr (wrote, still, more) ↦ rw wrote (e, still, omega (arith, more, at))
  ]

  abbrev pub Made : {A : Type 0} → IoResult (Mutex A) × World → Type 0
  Made (okay m, w) = Counts w m.evt 1
  Made (fail e, w) = Unit

  notified-Made :
      {A : Type 0} (evt : Event) (obj : A) (x : IoResult (Unit {0}) × World)
      → Notified evt 1 x
      → Made (notified evt obj x)
  notified-Made evt obj (okay _, w) h = h
  notified-Made evt obj (fail e, w) h = tt

  unwrapped-Counts :
      (evt : Event) (n : ℕ) (x : IoResult (Unit {0}) × World)
      → Notified evt n x
      → OnRet (λ w'. Counts w' evt n) (unwrapped x)
  unwrapped-Counts evt n (okay _, w) h = h
  unwrapped-Counts evt n (fail e, w) h = tt

  -- If a new mutex is made, the count of its event is 1, so that one lock can be taken.
  pub new-Counts : {A : Type 0} (obj : A) (w : World) → Made (new obj w)
  unfolding new Events.new
  new-Counts obj w = elim (L.eventfd_makes w) [
    | inl failed ↦ rw failed tt
    | inr (n, e, opened, is, zero_count) ↦ rw opened (
        notified-Made (record { inner = pos n }) obj _
          (notify_one-Counts (record { inner = pos n }) (L.eventfd w).1 0 (e, is, zero_count)))
  ]

  -- Dropping a guard whose mutex has an event that counts n leaves the event of the mutex at n +
  -- 1, unless the call fails and the drop panics.
  pub drop-Counts :
      (g : LockGuard) (w : World) (n : ℕ)
      → Counts w g.mtx n
      → OnRet (λ w'. Counts w' g.mtx (suc n)) (drop g w)
  unfolding drop
  drop-Counts g w n h = unwrapped-Counts g.mtx (suc n) _ (notify_one-Counts g.mtx w n h)
