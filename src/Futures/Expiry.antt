-- ===== src/Futures/Expiry.antt =====
-- About `Timer::poll` of src/futures/timer.rs: the first poll and the timer descriptor.
use trale.Prelude.{
  ℕ, ◌+◌, ◌-◌, ◌*◌, ◌/◌, ◌%◌, ◌≤◌, ◌<◌, ◌≡◌, refl, ap, inl, inr, true, false, ltb, ret, panic,
  Panic, OnRet, OnRet-bind, OnRet-all, arith, is_minus_one, if◌then◌else◌,
}
use trale.Slab.{SlabApi}
use trale.RingBuffer.{BufferApi}
use trale.Uring.{UringApi, Entry, Opcode}
use trale.Libc.{LibcApi, World}
use trale.Reactor.Ring.Defs.{ReactorInner, IoKind}
use trale.Reactor.Ring.Submit.{submit_io_lem}
use trale.Reactor.Io.Value.{pending, map_poll}
use trale.Reactor.Io.Oneshot
use trale.Futures.Timer.{Timer, nanos, arm, poll}

ltb-ge : (a b : ℕ) → b ≤ a → ltb a b ≡ false
ltb-ge a b le = ground arith

ltb-lt : (a b : ℕ) → a < b → ltb a b ≡ true
ltb-lt a b lt = ground arith

module _ ⦃L : LibcApi⦄ where
  pub arm-settime :
      (this : Timer) (now : ℕ) (w : World)
      → now ≤ this.expiration
      → (s : ℕ) × (n : ℕ) × (s * nanos + n ≡ this.expiration - now)
        × (n < nanos)
        × (arm this now w ≡ (
            if is_minus_one (L.timerfd_settime this.fd s n w).0
            then panic Panic.unwrap_failed
            else ret (L.timerfd_settime this.fd s n w).1))
  unfolding arm
  arm-settime this now w le = (
    (this.expiration - now) / nanos,
    (this.expiration - now) % nanos,
    omega arith,
    omega arith,
    rw (ltb-ge this.expiration now le),
  )

  module _ ⦃S : SlabApi⦄ ⦃B : BufferApi⦄ ⦃U : UringApi⦄ {T : Type 0} where
    -- A fresh handle's poll is pending, unless the submission queue is full.
    pub submit-pending :
        (f : Unit {0} → Entry × T) (r : ReactorInner T)
        → OnRet (λ x. x.0 ≡ pending) (Oneshot.submit_or_get_result Oneshot.IoState.fresh f r)
    unfolding Oneshot.submit_or_get_result Oneshot.advance Oneshot.poll_of
    submit-pending f r = elim (submit_io_lem r (f tt).0 (f tt).1 IoKind.oneshot) [
      | inl full ↦ rw full tt
      | inr (u, i, q, queued, _) ↦ rw queued refl
    ]

    -- The first poll of a timer at a time that is not after the expiration is pending, if it does
    -- not panic.
    poll-early :
        (this : Timer) (now now' : ℕ) (waker : T) (r : ReactorInner T) (w : World)
        → this.io ≡ Oneshot.IoState.fresh
        → now ≤ this.expiration
        → OnRet (λ x. x.0 ≡ pending) (poll this now now' waker r w)
    unfolding poll
    poll-early this now now' waker r w new le =
        rw (ltb-ge this.expiration now le, new)
          (OnRet-bind (λ _. Unit {0}) (λ x. x.0 ≡ pending) (arm this now' w) _
            (OnRet-all (λ _. Unit {0}) (arm this now' w) (λ _. tt))
            λ w' q.
              OnRet-bind (λ x. x.0 ≡ pending) (λ x. x.0 ≡ pending)
                (Oneshot.submit_or_get_result Oneshot.IoState.fresh
                  (λ _. (U.build (Opcode.read this.fd this.buf 0), waker)) r)
                _ (submit-pending _ r) (λ x e. ap (map_poll (λ _. tt)) e))

    -- If the expiration passes between the two readings of the clock in the first poll of a
    -- timer, the poll panics.
    poll-late :
        (this : Timer) (now now' : ℕ) (waker : T) (r : ReactorInner T) (w : World)
        → this.io ≡ Oneshot.IoState.fresh
        → now ≤ this.expiration
        → this.expiration < now'
        → poll this now now' waker r w ≡ panic Panic.unwrap_failed
    unfolding poll arm
    poll-late this now now' waker r w new le lt =
        rw (ltb-ge this.expiration now le, new, ltb-lt this.expiration now' lt)
