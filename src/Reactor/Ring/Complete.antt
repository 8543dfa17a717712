-- ===== src/Reactor/Ring/Complete.antt =====
-- What one completion does to the ring.
use trale.Prelude.{ℕ, ◌≡◌, refl, true, false, none, some, ret, arith, ℤ}
use trale.Slab.{SlabApi, Changes}
use trale.RingBuffer.{BufferApi}
use trale.Uring.{UringApi, Cqe}
use trale.Reactor.Result.Oneshot.{ResultState}
use trale.Reactor.Result.Oneshot.Slots as OneshotSlots
use trale.Reactor.Result.Multishot.{MultishotResultState}
use trale.Reactor.Result.Multishot.Slots as MultishotSlots
use trale.Reactor.Result.{RingResults}
use trale.Reactor.Ring.Defs.{ReactorInner, PendingIo, oneshot, multi, complete, deliver_multi}

module _ ⦃S : SlabApi⦄ ⦃B : BufferApi⦄ ⦃U : UringApi⦄ where
  -- The state of a multishot slot that has taken one more value.
  abbrev pub pushed : MultishotResultState → ℤ → MultishotResultState
  pushed e v = record e { results = B.push e.results v }

  deliver_more :
      (rs : RingResults) (c : Cqe) (i : ℕ) (e : MultishotResultState)
      → S.get rs.multishot i ≡ some e
      → c.more ≡ true
      → (qs : RingResults) × (deliver_multi rs c i ≡ ret qs)
        × Changes rs.multishot i (some (pushed e c.result)) qs.multishot
        × (qs.oneshot ≡ rs.oneshot)
  unfolding deliver_multi
  deliver_more rs c i e h more =
      let (s, eq, changes) = MultishotSlots.push_result_lem rs.multishot c.result i e h in
      (record rs { multishot = s }, rw (eq, more), changes, refl)

  deliver_last :
      (rs : RingResults) (c : Cqe) (i : ℕ) (e : MultishotResultState)
      → S.get rs.multishot i ≡ some e
      → c.more ≡ false
      → (qs : RingResults) × (deliver_multi rs c i ≡ ret qs)
        × Changes rs.multishot i (MultishotSlots.completed (pushed e c.result)) qs.multishot
        × (qs.oneshot ≡ rs.oneshot)
  unfolding deliver_multi
  deliver_last rs c i e h last =
      let (s, eq, ch) = MultishotSlots.push_result_lem rs.multishot c.result i e h in
      let here : S.get s i ≡ some (pushed e c.result) = ground (arith, ch i) in
      let (t, eq', ch') = MultishotSlots.set_finished_lem s i (pushed e c.result) here in
      (record rs { multishot = t }, rw (eq, last, eq'), λ j. ground (arith, ch j, ch' j), refl)

  module _ {T : Type 0} where
    -- What a completion leaves alone, and what becomes of the entry of its operation.
    pub complete_oneshot :
        (r : ReactorInner T) (c : Cqe) (io : PendingIo T) (e : ResultState)
        → S.get r.pending c.user_data ≡ some io
        → io.kind ≡ oneshot
        → S.get r.results.oneshot io.result_slab_idx ≡ some e
        → (q : ReactorInner T) × (complete r c ≡ ret (io.assoc_obj, q))
          × Changes r.results.oneshot io.result_slab_idx
              (OneshotSlots.completed c.result e)
              q.results.oneshot
          × Changes r.pending c.user_data none q.pending
          × (q.results.multishot ≡ r.results.multishot)
          × (q.uring ≡ r.uring)
    unfolding complete
    complete_oneshot r c io e found one h =
        let (s, eq, ch) =
          OneshotSlots.set_result_lem r.results.oneshot c.result io.result_slab_idx e h in
        (
          record r {
            pending = (S.try_remove r.pending c.user_data).1;
            results = record (r.results) { oneshot = s };
          },
          rw (found, one, eq, S.try_remove_value r.pending c.user_data, found),
          ch,
          λ j. S.get-try_remove r.pending c.user_data j,
          refl,
          refl,
        )

    pub complete_more :
        (r : ReactorInner T) (c : Cqe) (io : PendingIo T) (e : MultishotResultState)
        → S.get r.pending c.user_data ≡ some io
        → io.kind ≡ multi
        → S.get r.results.multishot io.result_slab_idx ≡ some e
        → c.more ≡ true
        → (q : ReactorInner T) × (complete r c ≡ ret (io.assoc_obj, q))
          × Changes r.results.multishot io.result_slab_idx
              (some (pushed e c.result))
              q.results.multishot
          × (q.pending ≡ r.pending)
          × (q.results.oneshot ≡ r.results.oneshot)
          × (q.uring ≡ r.uring)
    unfolding complete
    complete_more r c io e found many h more =
        let (qs, eq, ch, same) = deliver_more r.results c io.result_slab_idx e h more in
        (record r { results = qs }, rw (found, many, eq), ch, refl, same, refl)

    pub complete_last :
        (r : ReactorInner T) (c : Cqe) (io : PendingIo T) (e : MultishotResultState)
        → S.get r.pending c.user_data ≡ some io
        → io.kind ≡ multi
        → S.get r.results.multishot io.result_slab_idx ≡ some e
        → c.more ≡ false
        → (q : ReactorInner T) × (complete r c ≡ ret (io.assoc_obj, q))
          × Changes r.results.multishot io.result_slab_idx
              (MultishotSlots.completed (pushed e c.result))
              q.results.multishot
          × (q.pending ≡ r.pending)
          × (q.results.oneshot ≡ r.results.oneshot)
          × (q.uring ≡ r.uring)
    unfolding complete
    complete_last r c io e found many h last =
        let (qs, eq, ch, same) = deliver_last r.results c io.result_slab_idx e h last in
        (record r { results = qs }, rw (found, many, eq), ch, refl, same, refl)
