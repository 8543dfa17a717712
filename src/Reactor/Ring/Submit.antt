-- ===== src/Reactor/Ring/Submit.antt =====
-- What `submit_io` does to the ring: a new key, a new slot, and one more operation in flight.
use trale.Prelude.{
  ℕ, suc, ◌≡◌, refl, ◌⊎◌, inl, inr, Option-cases, none, some, ◌==◌, if◌then◌else◌, ret, panic,
  Panic, arith,
}
use trale.Slab.{SlabApi, Changes}
use trale.RingBuffer.{BufferApi}
use trale.Uring.{UringApi, Entry, Ring}
use trale.Reactor.Result.Oneshot
use trale.Reactor.Result.Oneshot.Slots as OneshotSlots
use trale.Reactor.Result.Multishot.Slots as MultishotSlots
use trale.Reactor.Result.{RingResults}
use trale.Reactor.Ring.Defs.{
  ReactorInner, PendingIo, IoKind, oneshot, multi, submit_io, create_slot,
}

module _ ⦃S : SlabApi⦄ ⦃B : BufferApi⦄ ⦃U : UringApi⦄ where
  -- A slot that no one used is now waiting; the other store is as it was.
  abbrev pub Creates : IoKind → RingResults → ℕ → RingResults → Type 0
  Creates oneshot r i q =
      (S.get r.oneshot i ≡ none)
      × Changes r.oneshot i (some Oneshot.ResultState.pending) q.oneshot
      × (q.multishot ≡ r.multishot)
  Creates multi r i q =
      (S.get r.multishot i ≡ none)
      × Changes r.multishot i (some MultishotSlots.fresh_slot) q.multishot
      × (q.oneshot ≡ r.oneshot)

  create_slot-Creates :
      (k : IoKind) (r : RingResults) → Creates k r (create_slot k r).0 (create_slot k r).1
  unfolding create_slot
  create_slot-Creates oneshot r =
      (OneshotSlots.create_slot_fresh r.oneshot, OneshotSlots.create_slot_lem r.oneshot, refl)
  create_slot-Creates multi r = (
    MultishotSlots.create_slot_fresh r.multishot,
    MultishotSlots.create_slot_lem r.multishot,
    refl,
  )

  module _ {T : Type 0} where
    pub record Submits (r : ReactorInner T) (e : Entry) (obj : T) (k : IoKind) (u i : ℕ)
        (q : ReactorInner T) : Type 0 where
      pub free_key : S.get r.pending u ≡ none
      pub recorded :
          Changes r.pending u
            (some (record { assoc_obj = obj; result_slab_idx = i; kind = k }))
            q.pending
      pub launched :
          (j : ℕ)
          → U.inflight q.uring j ≡ (if u == j then some (U.op_class e) else U.inflight r.uring j)
      pub room_taken : U.room r.uring ≡ suc (U.room q.uring)
      pub created : Creates k r.results i q.results

    -- What it does once the queue has taken the entry.
    abbrev Submitted : ReactorInner T → Entry → T → IoKind → Type 0
    Submitted r e obj k =
        (u : ℕ) × (i : ℕ) × (q : ReactorInner T) × (submit_io r e obj k ≡ ret ((u, i), q))
        × Submits r e obj k u i q

    submit_io_pushed :
        (r : ReactorInner T) (e : Entry) (obj : T) (k : IoKind) (ring : Ring)
        → (let i = (create_slot k r.results).0 in
            let io : PendingIo T = record { assoc_obj = obj; result_slab_idx = i; kind = k } in
            U.push r.uring e (S.insert r.pending io).0 ≡ some ring)
        → Submitted r e obj k
    unfolding submit_io
    submit_io_pushed r e obj k ring pushed =
        let i = (create_slot k r.results).0 in
        let io : PendingIo T = record { assoc_obj = obj; result_slab_idx = i; kind = k } in
        let u = (S.insert r.pending io).0 in
        (
          u,
          i,
          record {
            uring = ring;
            pending = (S.insert r.pending io).1;
            results = (create_slot k r.results).1;
          },
          rw pushed,
          record {
            free_key = ground (arith, S.insert_key r.pending io, S.get-vacant r.pending);
            recorded = λ j. ground (arith, S.insert_key r.pending io, S.get-insert r.pending io j);
            launched = λ j. U.inflight-push r.uring e u ring j pushed;
            room_taken = U.room-push r.uring e u ring pushed;
            created = create_slot-Creates k r.results;
          },
        )

    pub submit_io_lem :
        (r : ReactorInner T) (e : Entry) (obj : T) (k : IoKind)
        → (submit_io r e obj k ≡ panic Panic.queue_full) ⊎ Submitted r e obj k
    unfolding submit_io
    submit_io_lem r e obj k =
        let i = (create_slot k r.results).0 in
        let io : PendingIo T = record { assoc_obj = obj; result_slab_idx = i; kind = k } in
        let u = (S.insert r.pending io).0 in
        elim (Option-cases (U.push r.uring e u)) [
          | inl full ↦ inl (rw full)
          | inr (ring, pushed) ↦ inr (submit_io_pushed r e obj k ring pushed)
        ]

    -- With room in the queue it does not panic.
    pub submit_io_room :
        (r : ReactorInner T) (e : Entry) (obj : T) (k : IoKind) (n : ℕ)
        → U.room r.uring ≡ suc n
        → Submitted r e obj k
    submit_io_room r e obj k n room =
        let i = (create_slot k r.results).0 in
        let io : PendingIo T = record { assoc_obj = obj; result_slab_idx = i; kind = k } in
        let (ring, pushed) = U.push_room r.uring e (S.insert r.pending io).0 n room in
        submit_io_pushed r e obj k ring pushed

    pub submit_io_full :
        (r : ReactorInner T) (e : Entry) (obj : T) (k : IoKind)
        → U.room r.uring ≡ 0
        → submit_io r e obj k ≡ panic Panic.queue_full
    unfolding submit_io
    submit_io_full r e obj k none_left =
        let i = (create_slot k r.results).0 in
        let io : PendingIo T = record { assoc_obj = obj; result_slab_idx = i; kind = k } in
        rw (U.push_full r.uring e (S.insert r.pending io).0 none_left)
