-- ===== src/Task/Joining.antt =====
-- About `TaskJoiner` of src/task.rs: how a task that is over reaches its joiner.
use trale.Prelude.{
  ℕ, suc, ◌≡◌, ◌⊎◌, inl, inr, refl, ◌∙◌, false, some, ret, ℤ, pos, negsuc, same_fd, arith,
}
use trale.Slab.{SlabApi}
use trale.RingBuffer.{BufferApi}
use trale.Uring.{UringApi}
use trale.Libc.{LibcApi, World}
use trale.Reactor.Ring.Defs.{ReactorInner}
use trale.Reactor.Io.Value.{ready, reactor_value_to_result}
use trale.Reactor.Io.Oneshot
use trale.Futures.Events.{Event}
use trale.Futures.Events
use trale.Task.Join.{Channel, TaskJoiner, finish, join, poll, joined, unwrap_recv}

module _ ⦃L : LibcApi⦄ where
  -- A task that has finished signals the event `e`: another descriptor still refers to it, and its
  -- count is one more, unless the write failed.
  abbrev pub Signals : ℤ → ℤ → ℕ → World → World → Type 0
  Signals fd other e w w' =
      (L.event_of w' other ≡ some e)
      × (((L.write_u64 fd 1 w).0 ≡ negsuc 0) ⊎ (L.count w' e ≡ suc (L.count w e)))

module _ ⦃L : LibcApi⦄ {A : Type 0} where
  finish-Signals :
      (evt2 : Event) (value : A) (tx : Channel A) (w : World) (other : ℤ) (e : ℕ)
      → L.event_of w evt2.inner ≡ some e
      → L.event_of w other ≡ some e
      → same_fd evt2.inner other ≡ false
      → Signals evt2.inner other e w (finish evt2 value tx w).1
  unfolding finish Events.notify_one
  finish-Signals evt2 value tx w other e mine its apart = (
    rw (L.event_of-close evt2.inner (L.write_u64 evt2.inner 1 w).1 other, apart)
        (L.event_of-write_u64 evt2.inner 1 w other ∙ its),
    elim (L.write_u64_counts evt2.inner 1 w e mine) [
      | inl failed ↦ inl failed
      | inr (wrote, still, more) ↦
          inr (L.count-close evt2.inner (L.write_u64 evt2.inner 1 w).1 e ∙ more ∙ omega arith)
    ],
  )

module _ ⦃S : SlabApi⦄ ⦃B : BufferApi⦄ ⦃U : UringApi⦄ ⦃L : LibcApi⦄ {T A : Type 0} where
  -- The clone of a joiner's event that a task has is another descriptor of the same event. When
  -- the task has finished with a value, the count of the event is one more, unless the write to
  -- it has failed, and the joiner's descriptor still refers to the event; a join returns the
  -- value, and so does a poll of the joiner whose wait for the event has completed with a count.
  pub finish-joins :
      (evt2 : Event) (value : A) (tx : Channel A) (w : World) (j : TaskJoiner) (n e : ℕ) (waker : T)
      → (r : ReactorInner T) → L.event_of w evt2.inner ≡ some e
      → L.event_of w j.finished.inner ≡ some e
      → same_fd evt2.inner j.finished.inner ≡ false
      → j.finished.io ≡ Oneshot.IoState.finished (pos n)
      → Signals evt2.inner j.finished.inner e w (finish evt2 value tx w).1
        × (join (finish evt2 value tx w).0 ≡ ret (some value))
        × (poll j (finish evt2 value tx w).0 waker r
            ≡ ret (
                some (
                  ready value,
                  record j {
                    finished = record (j.finished) { io = Oneshot.IoState.finished (pos n) };
                  },
                  r,
                )))
  unfolding join finish poll joined unwrap_recv Events.poll Oneshot.submit_or_get_result
      Oneshot.advance Oneshot.poll_of reactor_value_to_result
  finish-joins evt2 value tx w j n e waker r mine its apart over =
      (finish-Signals evt2 value tx w j.finished.inner e mine its apart, refl, rw over)
