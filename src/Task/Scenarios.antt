-- ===== src/Task/Scenarios.antt =====
-- The tests of src/reactor/uring.rs with one operation, on any kernel that ends it: a handle that is
-- polled again once the operation has completed, and one that is dropped before. The descriptors and
-- the bytes, which the kernel sees, are left to the opcode.
use trale.Prelude.{
  ℕ, suc, ◌-◌, ◌≡◌, refl, ap, ◌∙◌, inl, inr, Bool, true, false, Option, none, some, Option-cases,
  List, [], ◌∷◌, Outcome, ret, ◌>>=◌, arith, ==_refl, ◌==◌, if◌then◌else◌, ℤ, pos,
}
use trale.Slab.{SlabApi}
use trale.RingBuffer.{BufferApi}
use trale.Uring.{UringApi, Ring, Cqe, Opcode, class_of, single_shot}
use trale.Reactor.Result.{no_results}
use trale.Reactor.Result
use trale.Reactor.Result.Oneshot.{ResultState, pending, set_to, dropped}
use trale.Reactor.Result.Oneshot.Slots as OneshotSlots
use trale.Reactor.Ring.Defs.{ReactorInner, PendingIo, oneshot, next, wait}
use trale.Reactor.Ring.Defs
use trale.Reactor.Ring.Submit.{submit_io_room}
use trale.Reactor.Ring.Complete.{complete_oneshot}
use trale.Reactor.Io.Value.{IoResult, Poll, okay, ready, reactor_value_to_result}
use trale.Reactor.Io.Value as Value
use trale.Reactor.Io.Oneshot
use trale.Reactor.Io.Oneshot.{fresh, submitted, finished, poll_of}
use trale.Reactor.System.Defs.{System, poll_oneshot, drop_oneshot, apply, boot, update}
use trale.Task.React.{react_all, wakers}
use trale.Task.Jobs.Draining.{Serves}

module _ ⦃S : SlabApi⦄ ⦃B : BufferApi⦄ ⦃U : UringApi⦄ where
  -- `single_wakeup_read` and `single_wakeup_write`, with what they assert as the result
  unfoldable pub single_wakeup :
      Opcode → ℕ → Outcome (Poll (IoResult ℤ) × List ℕ × Poll (IoResult ℤ) × Bool)
  single_wakeup o obj = do
    s1 ← apply boot (poll_oneshot 0 (U.build o) obj)
    (objs, s2) ← react_all s1
    s3 ← apply s2 (poll_oneshot 0 (U.build o) obj)
    s4 ← apply s3 (drop_oneshot 0)
    ret (poll_of (s1.oneshots 0), objs, poll_of (s3.oneshots 0), no_results s4.ring.results)

  -- `io_dropped_before_react_cleanup`
  unfoldable pub dropped_before_react : Opcode → ℕ → Outcome (Poll (IoResult ℤ) × List ℕ × Bool)
  dropped_before_react o obj = do
    s1 ← apply boot (poll_oneshot 0 (U.build o) obj)
    s2 ← apply s1 (drop_oneshot 0)
    (objs, s3) ← react_all s2
    ret (poll_of (s1.oneshots 0), objs, no_results s3.ring.results)

  -- Every completion of the kernel has the result `n`.
  abbrev pub Transfers : ℕ → Type 0
  Transfers n = (g : Ring) (c : Cqe) → (U.next g).0 ≡ some c → c.result ≡ pos n

  -- One slot is in use at most, and no stream.
  abbrev Slots : ReactorInner ℕ → ℕ → Option ResultState → Type 0
  Slots r i o =
      ((j : ℕ) → S.get r.results.oneshot j ≡ (if i == j then o else none))
      × (S.len r.results.multishot ≡ 0)

  -- One operation is in flight.
  record Alone (r : ReactorInner ℕ) (obj u i : ℕ) (st : ResultState) : Type 0 where
    flight : (j : ℕ) → U.inflight r.uring j ≡ (if u == j then some single_shot else none)
    recorded :
        S.get r.pending u ≡ some (record { assoc_obj = obj; result_slab_idx = i; kind = oneshot })
    slots : Slots r i (some st)

  module _ (r : ReactorInner ℕ) (obj u i : ℕ) (st : ResultState) (alone : Alone r obj u i st)
      (g : Ring) (waited : U.submit_and_wait r.uring ≡ some g) where
    only : (j : ℕ) → U.inflight g j ≡ (if u == j then some single_shot else none)
    only j = U.inflight-submit_and_wait r.uring g j waited ∙ alone.flight j

    abbrev Answered : Cqe → ReactorInner ℕ → Type 0
    Answered c q =
        (next (record r { uring = g }) ≡ ret (some obj, q))
        × (q.uring ≡ (U.next g).1)
        × Slots q i (OneshotSlots.completed c.result st)

    -- The first completion is that of the operation.
    first :
        (c : Cqe)
        → (U.next g).0 ≡ some c
        → (q : ReactorInner ℕ) × Answered c q × ((j : ℕ) → U.inflight q.uring j ≡ none)
    unfolding next
    first c came =
        let (k, flew) = U.next_inflight g c came in
        let mine : c.user_data ≡ u = ground (arith, only c.user_data) in
        let last : c.more ≡ false = U.next_single g c came (ground (arith, only c.user_data)) in
        let io : PendingIo ℕ = record { assoc_obj = obj; result_slab_idx = i; kind = oneshot } in
        let found : S.get r.pending c.user_data ≡ some io = rw mine alone.recorded in
        let here : S.get r.results.oneshot i ≡ some st = alone.slots.0 i ∙ rw (==_refl i) in
        let (q, eq, set, gone, same, ring) =
          complete_oneshot (record r { uring = (U.next g).1 }) c io st found refl here in
        (
          q,
          (
            rw (came, eq) refl,
            ring,
            (λ j. ground (arith, set j, alone.slots.0 j), ap S.len same ∙ alone.slots.1),
          ),
          λ j. rw ring (ground (arith, U.inflight-next g c j came, only j)),
        )

    no_second :
        (q : ReactorInner ℕ)
        → ((j : ℕ) → U.inflight q.uring j ≡ none)
        → next q ≡ ret (none, record q { uring = (U.next q.uring).1 })
    unfolding next
    no_second q idle = elim (Option-cases (U.next q.uring).0) [
      | inl empty ↦ rw empty refl
      | inr (c, came) ↦
          let (k, flew) = U.next_inflight q.uring c came in absurd (cc (flew, idle c.user_data))
    ]

    -- It ends the loop over the completions, after which the queue is empty.
    reacts :
        (s : System ℕ)
        → (c : Cqe) × (q : ReactorInner ℕ) × ((U.next g).0 ≡ some c)
          × (react_all (record s { ring = r }) ≡ ret (obj ∷ [], record s { ring = q }))
          × Slots q i (OneshotSlots.completed c.result st)
    unfolding react_all wait wakers
    reacts s =
        let (c, came) = U.submit_and_wait_ready r.uring g waited in
        let (q, (eq, ring, slots), idle) = first c came in
        let fuel : U.queued g ≡ suc (U.queued g - 1) = omega (arith, U.queued-next g c came) in
        (
          c,
          record q { uring = (U.next q.uring).1 },
          came,
          rw (waited, eq, fuel, no_second q idle) refl,
          slots,
        )

  module _ (o : Opcode) (obj : ℕ) (one : class_of o ≡ single_shot) where
    -- the state after the first poll
    abbrev Begun : System ℕ → ℕ → ℕ → Type 0
    Begun s u i =
        (apply boot (poll_oneshot 0 (U.build o) obj) ≡ ret s)
        × (s.oneshots 0 ≡ submitted i)
        × Alone s.ring obj u i pending

    begins : (s : System ℕ) × (u : ℕ) × (i : ℕ) × Begun s u i
    unfolding apply boot Defs.new Result.new Oneshot.submit_or_get_result
    begins =
        let s : System ℕ = boot in
        let (u, i, q, eq, sub) = submit_io_room s.ring (U.build o) obj oneshot 1023 U.room-new in
        (
          record s { ring = q; oneshots = update s.oneshots 0 (submitted i) },
          u,
          i,
          (
            rw eq refl,
            refl,
            record {
              flight = λ j. rw (sub.launched j, U.op_class-build o, one, U.inflight-new j);
              recorded = sub.recorded u ∙ rw (==_refl u);
              slots = (
                λ j. rw (sub.created.1 j, S.get-new {A = ResultState} j),
                ap S.len sub.created.2 ∙ S.len-new,
              );
            },
          ),
        )

    -- The wait for its completion returns.
    begun_waits :
        (s : System ℕ) (u i : ℕ) (st : ResultState)
        → Serves
        → Alone s.ring obj u i st
        → (g : Ring) × (U.submit_and_wait s.ring.uring ≡ some g)
    begun_waits s u i st serves alone =
        serves s.ring.uring u single_shot (alone.flight u ∙ rw (==_refl u))

    wakes_once :
        (s : System ℕ) (u i n : ℕ)
        → Begun s u i
        → Serves
        → Transfers n
        → single_wakeup o obj ≡ ret (Value.Poll.pending, obj ∷ [], ready (okay (pos n)), true)
    unfolding single_wakeup apply Oneshot.submit_or_get_result Oneshot.drop poll_of no_results
        reactor_value_to_result
    wakes_once s u i n (began, held, alone) serves all =
        let (g, waited) = begun_waits s u i pending serves alone in
        let (c, q, came, eq, slots) = reacts s.ring obj u i pending alone g waited s in
        let count : c.result ≡ pos n = all g c came in
        let slot : S.get q.results.oneshot i ≡ some (set_to c.result) =
          slots.0 i ∙ rw (==_refl i) in
        let (store, got, ch) = OneshotSlots.get_result_set q.results.oneshot i c.result slot in
        let emptied : S.len store ≡ 0 = S.len_of_get store (λ j. ground (arith, ch j, slots.0 j)) in
        rw (began, eq, held, got, emptied, slots.1, count) refl

    cleans_up :
        (s : System ℕ) (u i : ℕ)
        → Begun s u i
        → Serves
        → dropped_before_react o obj ≡ ret (Value.Poll.pending, obj ∷ [], true)
    unfolding dropped_before_react apply Oneshot.drop poll_of no_results
    cleans_up s u i (began, held, alone) serves =
        let here : S.get s.ring.results.oneshot i ≡ some pending =
          alone.slots.0 i ∙ rw (==_refl i) in
        let (store, eq, ch) = OneshotSlots.drop_result_lem s.ring.results.oneshot i pending here in
        let s' : System ℕ = record s {
          ring = record (s.ring) { results = record (s.ring.results) { oneshot = store } };
          oneshots = update s.oneshots 0 fresh;
        } in
        let alone' : Alone s'.ring obj u i dropped = record {
          flight = alone.flight;
          recorded = alone.recorded;
          slots = (λ j. ground (arith, ch j, alone.slots.0 j), alone.slots.1);
        } in
        let (g, waited) = begun_waits s' u i dropped serves alone' in
        let (c, q, came, eq', slots) = reacts s'.ring obj u i dropped alone' g waited s' in
        let emptied : S.len q.results.oneshot ≡ 0 =
          S.len_of_get q.results.oneshot (λ j. ground (arith, slots.0 j)) in
        rw (began, held, eq, eq', emptied, slots.1) refl

  -- Let a wait of the ring return whenever an operation is in flight, and let every operation
  -- transfer `n` bytes. Then what the tests of the ring with one operation assert holds on every
  -- kernel, for every opcode of one completion and every object: the first poll of the handle is
  -- pending, the loop over the completions yields exactly this object, the next poll is ready
  -- with `Ok(n)`, and no result is left; and when the handle is dropped before the reactor runs,
  -- the loop yields exactly the object as well, and no result is left.
  pub single_wakeup-dropped_before_react :
      (o : Opcode) (obj n : ℕ)
      → Serves
      → Transfers n
      → class_of o ≡ single_shot
      → (single_wakeup o obj ≡ ret (Value.Poll.pending, obj ∷ [], ready (okay (pos n)), true))
        × (dropped_before_react o obj ≡ ret (Value.Poll.pending, obj ∷ [], true))
  single_wakeup-dropped_before_react o obj n serves all one =
      let (s, u, i, begun) = begins o obj one in
      (wakes_once o obj one s u i n begun serves all, cleans_up o obj one s u i begun serves)
