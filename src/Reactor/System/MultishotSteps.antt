-- ===== src/Reactor/System/MultishotSteps.antt =====
-- Polls and drops of multishot handles.
use trale.Prelude.{ℕ, ◌≡◌, refl, sym, ◌∙◌, inl, inr, some, Option-cases, Panic, arith}
use trale.Slab.{SlabApi, Changes}
use trale.RingBuffer.{BufferApi}
use trale.Uring.{UringApi, Entry, Ring, multi_shot}
use trale.Reactor.Result.Multishot.{MultishotResultState, MultishotStore}
use trale.Reactor.Result.Multishot.Slots as MultishotSlots
use trale.Reactor.Ring.Defs.{ReactorInner, oneshot, multi}
use trale.Reactor.Ring.Links.{IsLinked, submit-IsLinked, submit_flying}
use trale.Reactor.Ring.Submit.{submit_io_lem, Submits}
use trale.Reactor.Io.Multishot
use trale.Reactor.Io.Multishot.{IoState, fresh, submitted}
use trale.Reactor.Lane.{stay, submit, release}
use trale.Reactor.System.Defs.{System, poll_multishot, drop_multishot, apply, update, Safely}
use trale.Reactor.System.Lanes.{multishot_slots-eq-some}
use trale.Reactor.System.Invariant.{Inv, Steps, Steps-Inv, Safely_ret, Safely_panic}

module _ ⦃S : SlabApi⦄ ⦃B : BufferApi⦄ ⦃U : UringApi⦄ {T : Type 0} (s : System T) (v : Inv s)
    (h : ℕ) where
  open v use {links, multishots_kept}

  submit_Steps :
      (e : Entry) (obj : T) (u i : ℕ) (q : ReactorInner T)
      → U.op_class e ≡ multi_shot
      → s.multishots h ≡ fresh
      → Submits s.ring e obj multi u i q
      → Steps s (record s { ring = q; multishots = update s.multishots h (submitted i u) })
  submit_Steps e obj u i q fit new sub = record {
    links = submit-IsLinked s.ring q e obj multi u i fit sub links;
    oneshot_move =
        stay (λ j. ground (arith, submit_flying s.ring q e obj multi u i fit sub links oneshot j))
          (λ j. rw sub.created.2) (λ j. refl);
    multishot_move =
        submit u i h (ground arith) (ground arith) (rw new)
          (submit_flying s.ring q e obj multi u i fit sub links multi)
          (λ j. ground (arith, sub.created.1 j)) (λ j. ground arith);
  }

  -- The ring with another kernel state and another multishot store, and the handle's new state.
  abbrev put_store : Ring → MultishotStore → IoState → System T
  put_store ring st state = record s {
    ring = record (s.ring) { uring = ring; results = record (s.ring.results) { multishot = st } };
    multishots = update s.multishots h state;
  }

  slot_of :
      (i u : ℕ)
      → s.multishots h ≡ submitted i u
      → (e : MultishotResultState) × (S.get s.ring.results.multishot i ≡ some e)
  slot_of i u held =
      let (e, a, b) = multishots_kept.handle_slot h i (rw held) in
      let (st, c, d, f) = multishot_slots-eq-some (S.get s.ring.results.multishot i) a in (st, c)

  -- A poll takes a value out of the slot's queue and changes nothing of its life.
  pop_Steps :
      (i u : ℕ) (e e' : MultishotResultState) (st : MultishotStore)
      → s.multishots h ≡ submitted i u
      → S.get s.ring.results.multishot i ≡ some e
      → e'.finished ≡ e.finished
      → e'.dropped ≡ e.dropped
      → Changes s.ring.results.multishot i (some e') st
      → Steps s (put_store s.ring.uring st (submitted i u))
  pop_Steps i u e e' st held slot f d ch = record {
    links = record { linked = links.linked; registered = links.registered };
    oneshot_move = stay (λ j. refl) (λ j. refl) (λ j. refl);
    multishot_move = stay (λ j. refl) (λ j. ground (arith, ch j)) (λ j. ground arith);
  }

  -- The handle was not in use.
  idle_Steps :
      s.multishots h ≡ fresh → Steps s (record s { multishots = update s.multishots h fresh })
  idle_Steps held = record {
    links = links;
    oneshot_move = stay (λ j. refl) (λ j. refl) (λ j. refl);
    multishot_move = stay (λ j. refl) (λ j. refl) (λ j. ground arith);
  }

  -- A cancellation leaves the operation in flight until its last completion.
  cancel-IsLinked :
      (ring : Ring) (st : MultishotStore) (state : IoState)
      → ((j : ℕ) → U.inflight ring j ≡ U.inflight s.ring.uring j)
      → IsLinked (put_store ring st state).ring
  cancel-IsLinked ring st state same = record {
    linked = λ w c p. links.linked w c (sym (same w) ∙ p);
    registered = λ w io p one. same w ∙ links.registered w io p one;
  }

  release_Steps :
      (i u : ℕ) (e : MultishotResultState) (ring : Ring) (st : MultishotStore)
      → s.multishots h ≡ submitted i u
      → S.get s.ring.results.multishot i ≡ some e
      → ((j : ℕ) → U.inflight ring j ≡ U.inflight s.ring.uring j)
      → Changes s.ring.results.multishot i (MultishotSlots.released e) st
      → Steps s (put_store ring st fresh)
  release_Steps i u e ring st held slot same ch = record {
    links = cancel-IsLinked ring st fresh same;
    oneshot_move = stay (λ j. rw (same j)) (λ j. refl) (λ j. refl);
    multishot_move =
        release h i (record { is_done = e.finished; is_dropped = e.dropped }) (rw held) (rw slot)
          (λ j. rw (same j)) (λ j. ground (arith, ch j)) (λ j. ground arith);
  }

  poll_from :
      (e : Entry) (obj : T) (state : IoState)
      → U.op_class e ≡ multi_shot
      → s.multishots h ≡ state
      → Safely (apply s (poll_multishot h e obj)) Inv
  unfolding apply Multishot.submit_or_get_result
  poll_from e obj fresh fit held = elim (submit_io_lem s.ring e obj multi) [
    | inl full ↦ Safely_panic {p = Panic.queue_full} Inv (rw (held, full)) tt
    | inr (u, i, q, eq, sub) ↦
        Safely_ret Inv (rw (held, eq)) (Steps-Inv (submit_Steps e obj u i q fit held sub) v)
  ]
  poll_from e obj (submitted i u) fit held =
      let (d, slot) = slot_of i u held in
      let (st, eq, ch) = MultishotSlots.pop_result_lem s.ring.results.multishot i d slot in
      Safely_ret Inv (rw (held, eq)) (
        Steps-Inv
          (pop_Steps i u d (record d { results = (B.dequeue d.results).1 }) st held slot refl refl
            ch)
          v)

  pub poll_multishot-Safely :
      (e : Entry) (obj : T)
      → U.op_class e ≡ multi_shot
      → Safely (apply s (poll_multishot h e obj)) Inv
  poll_multishot-Safely e obj fit = poll_from e obj (s.multishots h) fit refl

  drop_from : (state : IoState) → s.multishots h ≡ state → Safely (apply s (drop_multishot h)) Inv
  unfolding apply Multishot.drop
  drop_from fresh held = Safely_ret Inv (rw held) (Steps-Inv (idle_Steps held) v)
  drop_from (submitted i u) held = elim (Option-cases (U.sync_cancel s.ring.uring u)) [
    | inl missing ↦ Safely_panic {p = Panic.cancel_failed} Inv (rw (held, missing)) tt
    | inr (ring, eq) ↦
        let (e, slot) = slot_of i u held in
        let (st, eq', ch) = MultishotSlots.drop_result_lem s.ring.results.multishot i e slot in
        Safely_ret Inv (rw (held, eq, eq')) (
          Steps-Inv
            (release_Steps i u e ring st held slot
              (λ j. U.inflight-sync_cancel s.ring.uring u ring j eq) ch)
            v)
  ]

  pub drop_multishot-Safely : Safely (apply s (drop_multishot h)) Inv
  drop_multishot-Safely = drop_from (s.multishots h) refl
