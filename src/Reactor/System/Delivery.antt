-- ===== src/Reactor/System/Delivery.antt =====
-- About `next` of src/reactor/uring.rs and the polls of oneshot handles.
use trale.Prelude.{ℕ, ◌≡◌, refl, ap, ◌∙◌, ◌≢◌, false, none, some, ret, arith}
use trale.Slab.{SlabApi}
use trale.RingBuffer.{BufferApi}
use trale.Uring.{UringApi, Entry, Cqe}
use trale.Reactor.Result.Oneshot.{ResultState, pending, set_to, dropped}
use trale.Reactor.Result.Oneshot.Slots as OneshotSlots
use trale.Reactor.Ring.Defs.{ReactorInner, oneshot, next}
use trale.Reactor.Ring.Links.{flying_at-eq}
use trale.Reactor.Ring.Complete.{complete_oneshot}
use trale.Reactor.Io.Value.{ready, reactor_value_to_result}
use trale.Reactor.Io.Oneshot.{submitted, finished, submit_or_get_result}
use trale.Reactor.System.Defs.{System, next_completion, apply}
use trale.Reactor.System.Lanes.{oneshot_lane, oneshot_slot, oneshot_slots-eq-some}
use trale.Reactor.System.Invariant.{Inv}

only_pending :
    (st : ResultState)
    → (oneshot_slot st).is_dropped ≡ false
    → (oneshot_slot st).is_done ≡ false
    → st ≡ pending
only_pending pending a b = refl
only_pending (set_to r) a b = absurd (cc)
only_pending dropped a b = absurd (cc)

module _ ⦃S : SlabApi⦄ ⦃B : BufferApi⦄ ⦃U : UringApi⦄ {T : Type 0} where
  -- Between submission and completion the slot of a handle is `Pending`.
  pub waiting_slot :
      (s : System T) (h i u : ℕ)
      → Inv s
      → s.oneshots h ≡ submitted i
      → (oneshot_lane s).flying u ≡ some i
      → S.get s.ring.results.oneshot i ≡ some pending
  waiting_slot s h i u v held flies =
      let (d, a, live) = v.oneshots_kept.handle_slot h i (rw held) in
      let (e, b, open_slot) = v.oneshots_kept.flying_slot u i flies in
      let (st, here, is) = oneshot_slots-eq-some (S.get s.ring.results.oneshot i) a in
      here ∙ ap some (only_pending st (ground arith) (ground arith))

  -- When the next completion is that of a submitted oneshot handle, in a state that keeps the
  -- invariant, it is handled without a panic; the next poll of the handle answers with the
  -- completion's value, and the poll after it answers the same and changes nothing; the slots of
  -- all other submitted handles are unchanged.
  pub next-poll :
      (s : System T) (h i : ℕ) (c : Cqe)
      → Inv s
      → s.oneshots h ≡ submitted i
      → (oneshot_lane s).flying c.user_data ≡ some i
      → (U.next s.ring.uring).0 ≡ some c
      → (t : System T) × (apply s next_completion ≡ ret t)
        × ((f : Unit {0} → Entry × T)
            → (r : ReactorInner T) × (submit_or_get_result (t.oneshots h) f t.ring
                ≡ ret (ready (reactor_value_to_result c.result), finished c.result, r))
              × (submit_or_get_result (finished c.result) f r
                  ≡ ret (ready (reactor_value_to_result c.result), finished c.result, r)))
        × ((k j : ℕ)
            → s.oneshots k ≡ submitted j
            → h ≢ k
            → S.get t.ring.results.oneshot j ≡ S.get s.ring.results.oneshot j)
  unfolding apply next submit_or_get_result
  next-poll s h i c v held flies came =
      let (io, found, one, idx) = flying_at-eq oneshot _ (S.get s.ring.pending c.user_data) flies in
      let here : S.get s.ring.results.oneshot io.result_slab_idx ≡ some pending =
        rw idx (waiting_slot s h i c.user_data v held flies) in
      let taken : ReactorInner T = record (s.ring) { uring = (U.next s.ring.uring).1 } in
      let (q, eq, ch, gone, same, ring) = complete_oneshot taken c io pending found one here in
      let now : S.get q.results.oneshot i ≡ some (set_to c.result) = ground (arith, ch i, idx) in
      let (st, got, _) = OneshotSlots.get_result_set q.results.oneshot i c.result now in
      (
        record s { ring = q },
        rw (came, eq),
        λ f. (record q { results = record (q.results) { oneshot = st } }, rw (held, got), refl),
        λ k j other apart. ground (arith, ch j, idx, v.oneshots_kept.handle_unique h k i),
      )

  -- When the next completion is that of an operation whose oneshot handle was dropped, in a state
  -- that keeps the invariant, it is handled without a panic: its slot and its record are freed,
  -- and all other slots of both kinds are as they were.
  pub next-discards :
      (s : System T) (i : ℕ) (c : Cqe)
      → Inv s
      → (oneshot_lane s).flying c.user_data ≡ some i
      → S.get s.ring.results.oneshot i ≡ some dropped
      → (U.next s.ring.uring).0 ≡ some c
      → (t : System T) × (apply s next_completion ≡ ret t)
        × (S.get t.ring.results.oneshot i ≡ none)
        × (S.get t.ring.pending c.user_data ≡ none)
        × ((j : ℕ) → j ≢ i → S.get t.ring.results.oneshot j ≡ S.get s.ring.results.oneshot j)
        × (t.ring.results.multishot ≡ s.ring.results.multishot)
  unfolding apply next
  next-discards s i c v flies gone came =
      let (io, found, one, idx) = flying_at-eq oneshot _ (S.get s.ring.pending c.user_data) flies in
      let here : S.get s.ring.results.oneshot io.result_slab_idx ≡ some dropped = rw idx gone in
      let taken : ReactorInner T = record (s.ring) { uring = (U.next s.ring.uring).1 } in
      let (q, eq, ch, record_gone, same, ring) =
        complete_oneshot taken c io dropped found one here in
      (
        record s { ring = q },
        rw (came, eq),
        ground (arith, ch i, idx),
        ground (arith, record_gone c.user_data),
        λ j other. ground (arith, ch j, idx),
        same,
      )
