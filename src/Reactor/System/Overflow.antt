-- ===== src/Reactor/System/Overflow.antt =====
-- About `submit_io` of src/reactor/uring.rs: submissions with no wait between them.
use trale.Prelude.{
  ℕ, zero, suc, ◌+◌, ◌-◌, ◌≤◌, ◌<◌, ◌≡◌, refl, ◌∙◌, List, [], ◌∷◌, ret, panic, Panic, ◌⊎◌, inl, inr,
  arith, le_cases,
}
use trale.Slab.{SlabApi}
use trale.RingBuffer.{BufferApi}
use trale.Uring.{UringApi, Entry, entries}
use trale.Reactor.Ring.Defs.{oneshot}
use trale.Reactor.Ring.Defs
use trale.Reactor.Ring.Submit.{submit_io_room, submit_io_full}
use trale.Reactor.Io.Oneshot
use trale.Reactor.Io.Oneshot.{fresh, submitted}
use trale.Reactor.System.Defs.{System, Action, poll_oneshot, apply, boot, update}
use trale.Reactor.System.Safety.{run}

module _ ⦃S : SlabApi⦄ ⦃B : BufferApi⦄ ⦃U : UringApi⦄ {T : Type 0} (e : Entry) (obj : T) where
  -- the first polls of so many handles, from `h` on
  unfoldable pub first_polls : ℕ → ℕ → List (Action T)
  first_polls h zero = []
  first_polls h (suc k) = poll_oneshot h e obj ∷ first_polls (suc h) k

  abbrev AllFresh : System T → ℕ → Type 0
  AllFresh s h = (j : ℕ) → h ≤ j → s.oneshots j ≡ fresh

  -- One of them takes one entry of the queue.
  poll_room :
      (s : System T) (h n : ℕ)
      → AllFresh s h
      → U.room s.ring.uring ≡ suc n
      → (t : System T) × (apply s (poll_oneshot h e obj) ≡ ret t)
        × (U.room t.ring.uring ≡ n)
        × AllFresh t (suc h)
  unfolding apply Oneshot.submit_or_get_result
  poll_room s h n new room =
      let (u, i, q, eq, sub) = submit_io_room s.ring e obj oneshot n room in
      (
        record s { ring = q; oneshots = update s.oneshots h (submitted i) },
        rw (new h (omega arith), eq) refl,
        omega (arith, sub.room_taken),
        λ j le. ground (arith, new j (omega (arith, le))),
      )

  poll_full :
      (s : System T) (h : ℕ)
      → AllFresh s h
      → U.room s.ring.uring ≡ 0
      → apply s (poll_oneshot h e obj) ≡ panic Panic.queue_full
  unfolding apply Oneshot.submit_or_get_result
  poll_full s h new none_left =
      rw (new h (omega arith), submit_io_full s.ring e obj oneshot none_left) refl

  run-first_polls :
      (k h : ℕ) (s : System T)
      → AllFresh s h
      → k ≤ U.room s.ring.uring
      → (t : System T) × (run s (first_polls h k) ≡ ret t)
        × (U.room t.ring.uring + k ≡ U.room s.ring.uring)
  unfolding run first_polls
  run-first_polls zero h s new le = (s, refl, omega arith)
  run-first_polls (suc k) h s new le =
      let (t, eq, room, new') = poll_room s h (U.room s.ring.uring - 1) new (omega arith) in
      let (u, eq', room') = run-first_polls k (suc h) t new' (omega arith) in
      (u, rw (eq, eq'), omega arith)

  run_overflows :
      (k h n : ℕ) (s : System T)
      → AllFresh s h
      → U.room s.ring.uring ≡ n
      → n < k
      → run s (first_polls h k) ≡ panic Panic.queue_full
  unfolding run first_polls
  run_overflows zero h n s new room lt = absurd (omega arith)
  run_overflows (suc k) h zero s new room lt = rw (poll_full s h new room) refl
  run_overflows (suc k) h (suc n) s new room lt =
      let (t, eq, room', new') = poll_room s h n new room in
      rw eq (run_overflows k (suc h) n t new' room' (omega arith))

  -- From the start, the first polls of any number of oneshot handles, with no wait between them,
  -- all submit their operations and leave that much less room in the submission queue, if they
  -- are at most 1024; if they are more, then one of them panics because the queue is full.
  pub run-boot-first_polls :
      (k : ℕ)
      → ((k ≤ entries)
          × (t : System T) × (run boot (first_polls 0 k) ≡ ret t)
          × (U.room t.ring.uring + k ≡ entries))
        ⊎ ((entries < k) × (run boot (first_polls 0 k) ≡ panic Panic.queue_full))
  unfolding boot Defs.new
  run-boot-first_polls k = elim (le_cases k entries) [
    | inr more ↦ inr (more, run_overflows k 0 entries boot (λ j le. refl) U.room-new more)
    | inl fits ↦
        let (t, ran, room) =
          run-first_polls k 0 boot (λ j le. refl) (omega (arith, U.room-new, fits)) in
        inl (fits, t, ran, room ∙ U.room-new)
  ]
